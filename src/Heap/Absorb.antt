-- ===== src/Heap/Absorb.antt =====
-- The two parts of `glue_chunk` of src/mm/heap.c on a block of the list: the free block behind it
-- is taken in, and then it is taken in by the free block before it.
use bit_simple_kernel.Prelude.{
  ℕ, ◌+◌, ◌^◌, ◌≤◌, ◌<◌, ◌==◌, ◌≡◌, ◌∙◌, refl, false, List, [], ◌∷◌, arith, ok, Bool-cases, inl,
  inr, Run,
}
use bit_simple_kernel.Heap.{Header, Heap, heap_start, glue_next}
use bit_simple_kernel.Heap.Blocks.{Block, end, end-ge}
use bit_simple_kernel.Heap.Access.{with_headers, load-ok}
use bit_simple_kernel.Heap.Zip.{IsZip}
use bit_simple_kernel.Heap.Glue.{
  absorbed, absorbed_rest, IsMapped, glue_next-last, glue_next-inner, last-IsZip, inner-IsZip,
  longer, linked, linked_back, far, far_link,
}

-- What a part of `glue_chunk` leaves: it returns `v`, only headers have changed, and they hold `b`
-- between `xs` and `ys`.
abbrev pub Leaves : {A : Type 0} → Run Heap A → A → Heap → List Block → Block → List Block → Type 0
Leaves run v s xs b ys = (g : ℕ → Header) × (run ≡ ok v (with_headers s g)) × IsZip g xs b ys

-- The header of the block in the middle, and of the first one behind it, are mapped.
pub here-IsMapped :
    (s : Heap) (xs : List Block) (b : Block) (ys : List Block)
    → IsZip s.headers xs b ys
    → end (end heap_start xs + b.size) ys ≤ s.heap_max
    → IsMapped s (end heap_start xs)
here-IsMapped s xs b ys z inside = record {
  above = end-ge heap_start xs;
  below = omega (arith, z.long, inside, end-ge (end heap_start xs + b.size) ys);
}

pub next-IsMapped :
    (s : Heap) (xs : List Block) (b c : Block) (ys : List Block)
    → IsZip s.headers xs b (c ∷ ys)
    → end (end heap_start xs + b.size + c.size) ys ≤ s.heap_max
    → IsMapped s (s.headers (end heap_start xs)).next
next-IsMapped s xs b c ys z inside = rw z.next (record {
  above = omega (arith, end-ge heap_start xs);
  below = omega (arith, z.after.3, inside, end-ge (end heap_start xs + b.size + c.size) ys);
})

pub far-IsMapped :
    (s : Heap) (xs : List Block) (b c e : Block) (es : List Block)
    → IsZip s.headers xs b (c ∷ e ∷ es)
    → end (end heap_start xs + b.size + c.size + e.size) es ≤ s.heap_max
    → s.heap_max < 2 ^ 32
    → IsMapped s (far 0 s (end heap_start xs))
far-IsMapped s xs b c e es z inside small = rw (far_link s xs b c (e ∷ es) z inside small) (record {
  above = omega (arith, end-ge heap_start xs);
  below =
      omega (arith, z.after.4.3, inside, end-ge (end heap_start xs + b.size + c.size + e.size) es);
})

-- A free block behind, in the two cases of the link in it.
next-free :
    (pgd : ℕ) (s : Heap) (xs : List Block) (b c : Block) (ys : List Block)
    → IsZip s.headers xs b (c ∷ ys)
    → end (end heap_start xs + b.size + c.size) ys ≤ s.heap_max
    → s.heap_max < 2 ^ 32
    → c.used ≡ false
    → Leaves (glue_next pgd (end heap_start xs) s) tt s xs (record b { size = b.size + c.size }) ys
next-free pgd s xs b c [] z inside small u =
    let p = end heap_start xs in
    (
      linked 0 s p (longer 0 s p s.headers),
      glue_next-last pgd s p (here-IsMapped s xs b (c ∷ []) z inside)
          (next-IsMapped s xs b c [] z inside) (rw z.next (z.after.0 ∙ u))
          (far_link s xs b c [] z inside small),
      last-IsZip s xs b c z inside small,
    )
next-free pgd s xs b c (e ∷ es) z inside small u =
    let p = end heap_start xs in
    (
      linked 0 s p (linked_back 0 s p (longer 0 s p s.headers)),
      glue_next-inner pgd s p (here-IsMapped s xs b (c ∷ e ∷ es) z inside)
          (next-IsMapped s xs b c (e ∷ es) z inside) (rw z.next (z.after.0 ∙ u))
          (far-IsMapped s xs b c e es z inside small),
      inner-IsZip s xs b c e es z inside small,
    )

pub glue_next-Leaves :
    (pgd : ℕ) (s : Heap) (xs : List Block) (b : Block) (ys : List Block)
    → IsZip s.headers xs b ys
    → end (end heap_start xs + b.size) ys ≤ s.heap_max
    → s.heap_max < 2 ^ 32
    → Leaves (glue_next pgd (end heap_start xs) s) tt s xs (absorbed b ys) (absorbed_rest ys)
unfolding glue_next
glue_next-Leaves pgd s xs b [] z inside small =
    let here = here-IsMapped s xs b [] z inside in
    (s.headers, rw (load-ok (end heap_start xs) s here.above here.below, z.next) refl, z)
glue_next-Leaves pgd s xs b (c ∷ ys) z inside small = elim (Bool-cases c.used) [
  | inl u ↦
      let p = end heap_start xs in
      let here = here-IsMapped s xs b (c ∷ ys) z inside in
      let there : IsMapped s (p + b.size) = rw (← z.next) (next-IsMapped s xs b c ys z inside) in
      let more : (p + b.size == 0) ≡ false = ground (arith, there.above) in
      simp u (
        s.headers,
        rw
            (
              load-ok p s here.above here.below,
              z.next,
              more,
              load-ok (p + b.size) s there.above there.below,
              z.after.0,
              u,
            )
            refl,
        z,
      )
  | inr u ↦ simp u (next-free pgd s xs b c ys z inside small u)
]
