-- ===== src/Heap/Append.antt =====
-- The branch of `kmalloc` that puts a new chunk behind the last one.
use bit_simple_kernel.Prelude.{
  ℕ, ◌+◌, ◌-◌, ◌*◌, ◌/◌, ◌^◌, ◌≤◌, ◌<◌, ◌≡◌, ◌≢◌, ◌∙◌, ◌⊎◌, sym, ap, refl, true, false, List, [],
  ◌∷◌, ◌==◌, arith, ok, and_then, u32, write, write_self, Returns, Returns-bind,
}
use bit_simple_kernel.Heap.{
  Header, Heap, heap_start, header_size, heap_fuel, u31, at_end, store, update, new_start,
  alloc_chunk, append_chunk,
}
use bit_simple_kernel.Heap.Blocks.{Block, end, Backs, IsHeap}
use bit_simple_kernel.Heap.Access.{upd, with_headers, load-ok, store-ok, update-ok}
use bit_simple_kernel.Heap.Find.{found_at}
use bit_simple_kernel.Heap.Take.{place, placed_at, link-place}
use bit_simple_kernel.Heap.Appended.{
  IsLast, at_end-IsLast, IsAppended, appended-Chain, appended-Backs, place-at_end,
}
use bit_simple_kernel.Heap.Links.{keeps_links}
use bit_simple_kernel.Heap.Backing.{IsBacked, Covers, pages_for, alloc_chunk-Covers}

-- The header of the new chunk.
abbrev new_header : ℕ → ℕ → Header
new_header len prev = record { prev = prev; next = 0; allocated = true; length = len }

-- What `kmalloc` has to do: the list is placed, and the pages are still backed.
pub record Placed (pgd len : ℕ) (xs : List Block) (p : ℕ) (t : Heap) : Type 0 where
  pub result : p ≡ placed_at len heap_start xs + header_size
  pub heap : IsHeap t (place len xs)
  pub backed : IsBacked pgd t.machine t.heap_max

-- What else the branches do: they keep the links back if the search does, and they spend two pages at
-- most for each page of the heap.
pub record Places (pgd len : ℕ) (s : Heap) (xs : List Block) (p : ℕ) (t : Heap) : Type 0 where
  pub placed : Placed pgd len xs p t
  pub backs :
      Backs s.headers 0 heap_start xs
      → keeps_links len xs ≡ true
      → Backs t.headers 0 heap_start (place len xs)
  pub spent :
      s.machine.pmm.stack_top + 2 * (s.heap_max / 2 ^ 12)
      ≤ t.machine.pmm.stack_top + 2 * (t.heap_max / 2 ^ 12)
  pub tight : (t.heap_max ≡ s.heap_max) ⊎ (t.heap_max < end heap_start (place len xs) + 2 ^ 12)

module _ (pgd len : ℕ) (big : header_size ≤ len) (small : len < 2 ^ 31) where
  -- The first chunk of all.
  pub append_first :
      (s : Heap)
      → IsBacked pgd s.machine s.heap_max
      → 2 * pages_for s.heap_max (heap_start + len) ≤ s.machine.pmm.stack_top
      → heap_start + len ≤ 2 ^ 32 - 2 ^ 12
      → Returns (λ p t. Places pgd len s [] p t) (append_chunk pgd len 0 s)
  unfolding append_chunk new_start
  append_first s b pages space =
      let len31 : u31 len ≡ len = omega arith in
      rw len31 (
        Returns-bind (λ p t. Places pgd len s [] p t)
          (alloc_chunk pgd heap_fuel heap_start len (record s { heap_first = heap_start })) _
          (λ _ t c.
            rw (store-ok heap_start t (omega arith) (omega (arith, c.covers)) (new_header len 0))
              (record {
                placed = record {
                  result = refl;
                  heap = record {
                    first = c.first;
                    chain =
                        rw (write_self t.headers heap_start (new_header len 0))
                          (refl, refl, refl, big, tt);
                    inside = c.covers;
                    max_small = c.backed.below;
                  };
                  backed = c.backed;
                };
                backs = λ _ _. rw (write_self t.headers heap_start (new_header len 0)) (refl, tt);
                spent = c.spent;
                tight = c.tight;
              }))
          (alloc_chunk-Covers pgd heap_fuel heap_start len (record s { heap_first = heap_start })
            (omega (arith, b.above)) b pages space))

  -- The headers after a chunk has been put behind the one at `r`.
  abbrev appended : (ℕ → Header) → ℕ → ℕ → ℕ → Header
  appended h r start = upd (write h start (new_header len r)) r (λ g. record g { next = start })

  appended-IsAppended :
      (h : ℕ → Header) (r start : ℕ) → r ≢ start → IsAppended h (appended h r start) len r start
  appended-IsAppended h r start ne = record {
    kept = λ a nr ns. unfold write in ground arith;
    last = unfold write in ground arith;
    new_used = unfold write in ground arith;
    new_length = unfold write in ground arith;
    new_next = unfold write in ground arith;
    new_prev = unfold write in ground arith;
  }

  -- The stores, once the pages are there.
  link_new :
      (t : Heap) (r start : ℕ)
      → heap_start ≤ r
      → r + header_size ≤ start
      → start + len ≤ t.heap_max
      → t.heap_max < 2 ^ 32
      → and_then (store start (new_header len r) t) (λ _ u.
        and_then
          (update r (λ g. record g { next = start }) u)
          (λ _ v. ok (u32 (start + header_size)) v))
        ≡ ok (start + header_size) (with_headers t (appended t.headers r start))
  link_new t r start above apart covers top =
      let t₁ = with_headers t (write t.headers start (new_header len r)) in
      let sum : u32 (start + header_size) ≡ start + header_size = omega arith in
      rw
        (
          sum,
          store-ok start t (omega arith) (omega arith) (new_header len r),
          update-ok r t₁ above (omega arith) (λ g. record g { next = start }),
        )
        refl

  behind-Places :
      (s : Heap) (b : Block) (xs : List Block) (r : ℕ)
      → IsHeap s (b ∷ xs)
      → found_at len 0 heap_start (b ∷ xs) ≡ at_end r
      → (t : Heap) → Covers pgd s (end heap_start (b ∷ xs) + len) t
      → IsLast s.headers heap_start (b ∷ xs) r
      → Places pgd len s
          (b ∷ xs)
          (end heap_start (b ∷ xs) + header_size)
          (with_headers t (appended t.headers r (end heap_start (b ∷ xs))))
  behind-Places s b xs r heap e t c l =
      let start = end heap_start (b ∷ xs) in
      let ne : r ≢ start = omega (arith, l.ends, l.long) in
      let at_place = place-at_end len 0 heap_start (b ∷ xs) e in
      let is = appended-IsAppended s.headers r start ne in
      let g = appended s.headers r start in
      record {
        placed = record {
          result = ap (λ (n : ℕ). n + header_size) (sym at_place.0);
          heap = record {
            first = c.first ∙ heap.first ∙ link-place len heap_start b xs;
            chain =
                rw c.headers (
                  appended-Chain s.headers g len 0 heap_start b xs r start big heap.chain e refl
                    is);
            inside = omega (arith, at_place.1, c.covers);
            max_small = c.backed.below;
          };
          backed = c.backed;
        };
        backs = λ d _.
            rw c.headers
              (appended-Backs s.headers g len 0 heap_start b xs r start big heap.chain d e refl is);
        spent = c.spent;
        tight = omega (arith, c.tight, at_place.1);
      }

  pub append_behind :
      (s : Heap) (b : Block) (xs : List Block) (r : ℕ)
      → IsHeap s (b ∷ xs)
      → found_at len 0 heap_start (b ∷ xs) ≡ at_end r
      → IsBacked pgd s.machine s.heap_max
      → 2 * pages_for s.heap_max (end heap_start (b ∷ xs) + len) ≤ s.machine.pmm.stack_top
      → end heap_start (b ∷ xs) + len ≤ 2 ^ 32 - 2 ^ 12
      → Returns (λ p t. Places pgd len s (b ∷ xs) p t) (append_chunk pgd len r s)
  unfolding append_chunk new_start
  append_behind s b xs r heap e back pages space =
      let start = end heap_start (b ∷ xs) in
      let l = at_end-IsLast s.headers len 0 heap_start b xs r heap.chain e in
      let len31 : u31 len ≡ len = omega arith in
      let nonzero : (r == 0) ≡ false = ground (arith, l.after) in
      let sum : u32 (r + (s.headers r).length) ≡ start =
        omega (arith, l.ends, heap.inside, heap.max_small) in
      rw (len31, nonzero, load-ok r s l.after (omega (arith, l.ends, l.long, heap.inside)), sum)
        (Returns-bind (λ p t. Places pgd len s (b ∷ xs) p t) (alloc_chunk pgd heap_fuel start len s)
          _
          (λ _ t c.
            rw (link_new t r start l.after (omega (arith, l.ends, l.long)) c.covers c.backed.below)
              (behind-Places s b xs r heap e t c l))
          (alloc_chunk-Covers pgd heap_fuel start len s (omega arith) back pages space))
