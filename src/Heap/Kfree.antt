-- ===== src/Heap/Kfree.antt =====
-- `kfree` of src/mm/heap.c on a block of the list.
use bit_simple_kernel.Prelude.{
  ℕ, ◌+◌, ◌≤◌, ◌==◌, ◌≡◌, ◌∙◌, ap, sym, refl, true, false, List, [], ◌∷◌, ◌++◌, arith, inl, inr,
  if◌then◌else◌, Cmd, Returns, Returns-mono, ◌>>=◌, Bool-cases, sub32,
}
use bit_simple_kernel.Heap.{Header, Heap, heap_start, header_size, kfree, glue_chunk, glue_prev}
use bit_simple_kernel.Heap.Blocks.{Block, end, IsLinked, end-append}
use bit_simple_kernel.Heap.Access.{upd, with_headers, load-ok, update-ok}
use bit_simple_kernel.Heap.Zip.{IsZip, IsZip-back, to-IsZip, last_of-snoc}
use bit_simple_kernel.Heap.Backing.{IsBacked}
use bit_simple_kernel.Heap.Glue.{free, absorbed, absorbed_rest, mark-IsZip}
use bit_simple_kernel.Heap.Absorb.{here-IsMapped, glue_next-Leaves}
use bit_simple_kernel.Heap.Merge.{prev-free}
use bit_simple_kernel.Heap.Release.{
  snoc-elim, link-middle, seal, Holds, Releases, end_of_glue, end_of_glue-Releases,
}

-- The list `xs`, `b`, `ys` when `b` is free and the block before it takes it in if that is free too.
abbrev pub join : List Block → Block → List Block → List Block
join [] b ys = seal b ys
join (a ∷ []) b ys = if a.used then a ∷ seal b ys else seal (record a { size = a.size + b.size }) ys
join (a ∷ c ∷ xs) b ys = a ∷ join (c ∷ xs) b ys

-- What `kfree` leaves of the list: `b` is free, one block with its free neighbours, and not there
-- at all if nothing is behind it.
abbrev pub released : List Block → Block → List Block → List Block
released xs b ys = join xs (absorbed (free b) ys) (absorbed_rest ys)

join-used :
    (xs : List Block) (a b : Block) (ys : List Block)
    → a.used ≡ true
    → join (xs ++ a ∷ []) b ys ≡ (xs ++ a ∷ []) ++ seal b ys
join-used [] a b ys u = simp u refl
join-used (x ∷ []) a b ys u = ap (λ l. x ∷ l) (join-used [] a b ys u)
join-used (x ∷ y ∷ xs) a b ys u = ap (λ l. x ∷ l) (join-used (y ∷ xs) a b ys u)

join-free :
    (xs : List Block) (a b : Block) (ys : List Block)
    → a.used ≡ false
    → join (xs ++ a ∷ []) b ys ≡ xs ++ seal (record a { size = a.size + b.size }) ys
join-free [] a b ys u = simp u refl
join-free (x ∷ []) a b ys u = ap (λ l. x ∷ l) (join-free [] a b ys u)
join-free (x ∷ y ∷ xs) a b ys u = ap (λ l. x ∷ l) (join-free (y ∷ xs) a b ys u)

absorbed-end :
    (p : ℕ) (b : Block) (ys : List Block)
    → end (p + (absorbed b ys).size) (absorbed_rest ys) ≡ end (p + b.size) ys
absorbed-end p b [] = refl
absorbed-end p b (c ∷ cs) = elim (Bool-cases c.used) [
  | inl u ↦ simp u refl
  | inr u ↦ simp u (ap (λ (q : ℕ). end q cs) (omega arith))
]

-- The part of `glue_chunk` behind `glue_next`.
abbrev rest_of_glue : ℕ → ℕ → Cmd Heap (Unit {0})
rest_of_glue pgd p = glue_prev pgd p >>= end_of_glue pgd

-- What is known of the heap there.
record IsGluing (pgd old : ℕ) (xs : List Block) (b : Block) (ys : List Block) (s : Heap)
    : Type 0 where
  zip : IsZip s.headers xs b ys
  first : s.heap_first ≡ heap_start
  ends : end (end heap_start xs + b.size) ys ≡ old
  within : old ≤ s.heap_max
  backed : IsBacked pgd s.machine s.heap_max

rest-first :
    (pgd old : ℕ) (b : Block) (ys : List Block) (s : Heap)
    → IsGluing pgd old [] b ys s
    → Returns
        (λ _ t. Releases pgd s.heap_max s.machine.pmm.stack_top old (seal b ys) t)
        (rest_of_glue pgd heap_start s)
unfolding glue_prev
rest-first pgd old b ys s g =
    let inside : end (heap_start + b.size) ys ≤ s.heap_max = omega (arith, g.ends, g.within) in
    let here = here-IsMapped s [] b ys g.zip inside in
    rw (load-ok heap_start s here.above here.below, g.zip.prev)
      (end_of_glue-Releases pgd old [] b ys s g.zip g.first g.ends g.within g.backed)

rest-behind_used :
    (pgd old : ℕ) (xs : List Block) (a b : Block) (ys : List Block) (s : Heap)
    → IsGluing pgd old (xs ++ a ∷ []) b ys s
    → a.used ≡ true
    → Returns
        (λ _ t. Releases pgd s.heap_max s.machine.pmm.stack_top old ((xs ++ a ∷ []) ++ seal b ys) t)
        (rest_of_glue pgd (end heap_start (xs ++ a ∷ [])) s)
unfolding glue_prev
rest-behind_used pgd old xs a b ys s g u =
    let inside : end (end heap_start (xs ++ a ∷ []) + b.size) ys ≤ s.heap_max =
      omega (arith, g.ends, g.within) in
    let p = end heap_start xs in
    let q = end heap_start (xs ++ a ∷ []) in
    let here = here-IsMapped s (xs ++ a ∷ []) b ys g.zip inside in
    let back = IsZip-back s.headers xs a b ys g.zip in
    let place : q ≡ p + a.size = end-append heap_start xs (a ∷ []) in
    let there = here-IsMapped s xs a (b ∷ ys) back (rw (← place) inside) in
    let not_null : (p == 0) ≡ false = ground (arith, there.above) in
    let in_use : (s.headers p).allocated ≡ true = back.allocated ∙ u in
    rw
      (
        load-ok q s here.above here.below,
        g.zip.prev,
        last_of-snoc 0 heap_start xs a,
        not_null,
        load-ok p s there.above there.below,
        in_use,
      )
      (end_of_glue-Releases pgd old (xs ++ a ∷ []) b ys s g.zip g.first g.ends g.within g.backed)

rest-behind_free :
    (pgd old : ℕ) (xs : List Block) (a b : Block) (ys : List Block) (s : Heap)
    → IsGluing pgd old (xs ++ a ∷ []) b ys s
    → a.used ≡ false
    → Returns
        (λ _ t.
          Releases pgd s.heap_max s.machine.pmm.stack_top old
            (xs ++ seal (record a { size = a.size + b.size }) ys)
            t)
        (rest_of_glue pgd (end heap_start (xs ++ a ∷ [])) s)
rest-behind_free pgd old xs a b ys s g u =
    let p = end heap_start xs in
    let place : end heap_start (xs ++ a ∷ []) ≡ p + a.size = end-append heap_start xs (a ∷ []) in
    let back = IsZip-back s.headers xs a b ys g.zip in
    let inside : end (p + a.size + b.size) ys ≤ s.heap_max =
      rw (← place) (omega (arith, g.ends, g.within)) in
    let left =
      prev-free pgd s xs a b g.backed.below ys back
        (rw (← place) (g.zip.prev ∙ last_of-snoc 0 heap_start xs a)) inside u in
    let c : Block = record a { size = a.size + b.size } in
    let same : p + a.size + b.size ≡ p + c.size = omega arith in
    rw (place, left.1)
      (end_of_glue-Releases pgd old xs c ys (with_headers s left.0) left.2 g.first
        (ap (λ (n : ℕ). end n ys) (sym same) ∙ (rw place at g.ends)) g.within g.backed)

rest_of_glue-Releases :
    (pgd old : ℕ) (xs : List Block) (b : Block) (ys : List Block) (s : Heap)
    → IsGluing pgd old xs b ys s
    → Returns
        (λ _ t. Releases pgd s.heap_max s.machine.pmm.stack_top old (join xs b ys) t)
        (rest_of_glue pgd (end heap_start xs) s)
rest_of_glue-Releases pgd old =
    snoc-elim
      (λ xs.
        (b : Block) (ys : List Block) (s : Heap)
        → IsGluing pgd old xs b ys s
        → Returns (λ _ t. Releases pgd s.heap_max s.machine.pmm.stack_top old (join xs b ys) t)
            (rest_of_glue pgd (end heap_start xs) s))
      (rest-first pgd old)
      (λ xs a b ys s g. elim (Bool-cases a.used) [
        | inl u ↦ rw (join-used xs a b ys u) (rest-behind_used pgd old xs a b ys s g u)
        | inr u ↦ rw (join-free xs a b ys u) (rest-behind_free pgd old xs a b ys s g u)
      ])

-- `kfree` on the address of a block returns. The block is free afterwards and one block with the
-- free ones next to it; if no block is behind it, it leaves the list. The page stack grows by as
-- many pages as the heap loses; no whole page is left behind the end of the list, unless the list ends where
-- it ended and so does the heap. The links are right both ways, and the pages of the heap are in
-- order.
pub kfree-Releases :
    (pgd : ℕ) (s : Heap) (xs : List Block) (b : Block) (ys : List Block)
    → IsLinked s (xs ++ b ∷ ys)
    → IsBacked pgd s.machine s.heap_max
    → Returns
        (λ _ t.
          Releases pgd s.heap_max s.machine.pmm.stack_top
            (end heap_start (xs ++ b ∷ ys))
            (released xs b ys)
            t)
        (kfree pgd (end heap_start xs + header_size) s)
unfolding kfree glue_chunk
kfree-Releases pgd s xs b ys l k =
    let p = end heap_start xs in
    let old = end heap_start (xs ++ b ∷ ys) in
    let z = to-IsZip s.headers xs b ys l.heap.chain l.backs in
    let place : old ≡ end (p + b.size) ys = end-append heap_start xs (b ∷ ys) in
    let inside : end (p + b.size) ys ≤ s.heap_max = rw (← place) l.heap.inside in
    let here = here-IsMapped s xs b ys z inside in
    let start : sub32 (p + header_size) header_size ≡ p = omega (arith, here.below, k.below) in
    let h : ℕ → Header = upd s.headers p (λ r. record r { allocated = false }) in
    let next =
      glue_next-Leaves pgd (with_headers s h) xs (free b) ys (mark-IsZip s.headers xs b ys z) inside
        k.below in
    rw (start, update-ok p s here.above here.below, next.1)
      (rest_of_glue-Releases pgd old xs (absorbed (free b) ys) (absorbed_rest ys)
        (with_headers s next.0)
        (record {
          zip = next.2;
          first = l.heap.first ∙ link-middle heap_start xs b ys;
          ends = absorbed-end p (free b) ys ∙ sym place;
          within = l.heap.inside;
          backed = k;
        }))

pub kfree-Holds :
    (pgd : ℕ) (s : Heap) (xs : List Block) (b : Block) (ys : List Block)
    → IsLinked s (xs ++ b ∷ ys)
    → IsBacked pgd s.machine s.heap_max
    → Returns
        (λ _ t. Holds pgd (released xs b ys) t)
        (kfree pgd (end heap_start xs + header_size) s)
kfree-Holds pgd s xs b ys l k =
    Returns-mono (kfree pgd (end heap_start xs + header_size) s) (λ _ _ h. h.holds)
      (kfree-Releases pgd s xs b ys l k)
