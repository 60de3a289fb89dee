-- ===== src/Heap/BackLinks.antt =====
-- `split_chunk` leaves the back link of the chunk behind the one that it cuts as it was.
use bit_simple_kernel.Prelude.{
  ℕ, ◌+◌, ◌-◌, ◌^◌, ◌≤◌, ◌<◌, ◌≡◌, ◌≢◌, ◌∙◌, sym, ap, inl, inr, true, false, List, [], ◌∷◌, ltb,
  lt→ltb, arith, u32, Returns, Bool-cases,
}
use bit_simple_kernel.Heap.{
  Header, Heap, heap_start, header_size, heap_fuel, fits, at_end, find_chunk, kmalloc, use_found,
}
use bit_simple_kernel.Heap.Blocks.{Block, Chain, Backs, IsLinked}
use bit_simple_kernel.Heap.Find.{is_fit, found_at, find_chunk-found_at}
use bit_simple_kernel.Heap.Take.{taken_rest, taken_other, take_chunk-ok, found-IsHit}
use bit_simple_kernel.Heap.Kmalloc.{length_bound}

-- In a list with right links the chunk after a found one, if any, starts where that one ends and
-- names it.
next-prev :
    (h : ℕ → Header) (len q p : ℕ) (xs : List Block) (cur : ℕ)
    → Chain h p xs
    → Backs h q p xs
    → found_at len q p xs ≡ fits cur
    → (h cur).next ≢ 0
    → ((h cur).next ≡ cur + (h cur).length) × ((h (h cur).next).prev ≡ cur)
next-prev h len q p [] cur c d e ne = absurd (cc)
next-prev h len q p (b ∷ []) cur c d e ne = elim (Bool-cases (is_fit len b)) [
  | inl hit ↦
      let first : fits p ≡ fits cur = rw hit at e in
      let same : p ≡ cur = cc in absurd (ne (rw (← same) c.2))
  | inr miss ↦ let f : at_end p ≡ fits cur = rw miss at e in absurd (cc)
]
next-prev h len q p (b ∷ b' ∷ xs) cur c d e ne = elim (Bool-cases (is_fit len b)) [
  | inl hit ↦
      let first : fits p ≡ fits cur = rw hit at e in
      let same : p ≡ cur = cc in rw (← same) (c.2 ∙ ap (λ (n : ℕ). p + n) (sym c.1), rw c.2 d.1.0)
  | inr miss ↦ next-prev h len p (p + b.size) (b' ∷ xs) cur c.4 d.1 (rw miss at e) ne
]

-- What `kmalloc` leaves when it cuts the chunk at `cur`, which is followed by one at `behind`.
pub record IsStale (cur len behind : ℕ) (t : Heap) : Type 0 where
  pub rest_free : (t.headers (cur + len)).allocated ≡ false
  pub rest_next : (t.headers (cur + len)).next ≡ behind
  pub back_link : (t.headers behind).prev ≡ cur

-- When `kmalloc` cuts a free chunk at `cur` that is not the last one, then the free rest at
-- `cur + len` is followed by the chunk that followed before, but the back link of that chunk still
-- names `cur`, although all back links were right before.
pub kmalloc-IsStale :
    (pgd size : ℕ) (s : Heap) (xs : List Block) (cur : ℕ)
    → size + header_size < 2 ^ 31
    → IsLinked s xs
    → found_at (size + header_size) 0 heap_start xs ≡ fits cur
    → header_size < (s.headers cur).length - (size + header_size)
    → (s.headers cur).next ≢ 0
    → Returns (λ _ t. IsStale cur (size + header_size) (s.headers cur).next t) (kmalloc pgd size s)
unfolding kmalloc use_found
kmalloc-IsStale pgd size s xs cur small linked e cut ne =
    let h = s.headers in
    let len = size + header_size in
    let heap = linked.heap in
    let big : header_size ≤ len = omega arith in
    let sum : u32 (size + header_size) ≡ size + header_size = omega arith in
    let found =
      ap (λ (a : ℕ). find_chunk heap_fuel len a 0 s) heap.first
      ∙ find_chunk-found_at heap_fuel len 0 heap_start xs s
          (omega (arith, length_bound h heap_start xs heap.chain, heap.inside, heap.max_small))
          (omega arith) heap.inside heap.chain in
    let i = found-IsHit h len big 0 heap_start xs cur heap.chain e in
    let n = next-prev h len 0 heap_start xs cur heap.chain linked.backs e ne in
    let is_cut : ltb header_size ((h cur).length - len) ≡ true = lt→ltb _ _ cut in
    rw (sum, found, e)
      (rw
        (take_chunk-ok len cur s i.after big i.long
          (omega (arith, i.within, heap.inside, heap.max_small, i.after))
          (omega (arith, i.within, heap.inside)) heap.max_small)
        (record {
          rest_free = ap (λ r. r.allocated) (taken_rest h len cur big is_cut);
          rest_next = ap (λ r. r.next) (taken_rest h len cur big is_cut);
          back_link =
              ap (λ r. r.prev)
                (taken_other h len cur (h cur).next (omega (arith, n.0, i.long))
                  (λ _. omega (arith, n.0, cut)))
              ∙ n.1;
        }))
