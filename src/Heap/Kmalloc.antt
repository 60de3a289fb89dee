-- ===== src/Heap/Kmalloc.antt =====
-- `kmalloc` as first fit on the list of blocks.
use bit_simple_kernel.Prelude.{
  ℕ, ◌+◌, ◌-◌, ◌*◌, ◌^◌, ◌≤◌, ◌<◌, ◌≡◌, ◌∙◌, sym, ap, refl, ◌⊎◌, inl, inr, List, [], ◌∷◌, length,
  arith, u32, Returns, Returns-mono,
}
use bit_simple_kernel.Heap.{
  Header, Heap, heap_start, header_size, heap_fuel, Found, fits, at_end, find_chunk, take_chunk,
  append_chunk, use_found, kmalloc,
}
use bit_simple_kernel.Heap.Blocks.{Block, end, Chain, IsHeap}
use bit_simple_kernel.Heap.Find.{found_at, find_chunk-found_at}
use bit_simple_kernel.Heap.Take.{
  place, take_chunk-ok, taken-Chain, found-IsHit, link-place_hit, end-place,
}
use bit_simple_kernel.Heap.Backing.{IsBacked, pages_for}
use bit_simple_kernel.Heap.Appended.{place-at_end}
use bit_simple_kernel.Heap.Links.{taken-Backs}
use bit_simple_kernel.Heap.Append.{Placed, Places, append_first, append_behind}

Found-cases : (f : Found) → ((c : ℕ) × (f ≡ fits c)) ⊎ ((r : ℕ) × (f ≡ at_end r))
Found-cases (fits c) = inl (c, refl)
Found-cases (at_end r) = inr (r, refl)

pub length_bound :
    (h : ℕ → Header) (p : ℕ) (xs : List Block)
    → Chain h p xs
    → p + header_size * length xs ≤ end p xs
length_bound h p [] c = omega arith
length_bound h p (b ∷ xs) c = omega (arith, length_bound h (p + b.size) xs c.4, c.3)

module _ (pgd len : ℕ) (big : header_size ≤ len) (small : len < 2 ^ 31) (s : Heap) where
  take-Places :
      (xs : List Block) (cur : ℕ)
      → IsHeap s xs
      → IsBacked pgd s.machine s.heap_max
      → found_at len 0 heap_start xs ≡ fits cur
      → Returns (λ p t. Places pgd len s xs p t) (take_chunk len cur s)
  take-Places xs cur heap back e =
      let i = found-IsHit s.headers len big 0 heap_start xs cur heap.chain e in
      rw
        (take_chunk-ok len cur s i.after big i.long
          (omega (arith, i.within, heap.inside, heap.max_small, i.after))
          (omega (arith, i.within, heap.inside)) heap.max_small)
        (record {
          placed = record {
            result = ap (λ (n : ℕ). n + header_size) (sym i.place_eq);
            heap = record {
              first = heap.first ∙ link-place_hit len 0 heap_start xs e;
              chain = taken-Chain s.headers len big 0 heap_start xs cur heap.chain e;
              inside = rw (end-place len 0 heap_start xs e) heap.inside;
              max_small = heap.max_small;
            };
            backed = back;
          };
          backs = λ d k. taken-Backs s.headers len big 0 heap_start xs cur heap.chain d e k;
          spent = omega arith;
          tight = inl refl;
        })

  append-Places :
      (xs : List Block) (r : ℕ)
      → IsHeap s xs
      → IsBacked pgd s.machine s.heap_max
      → found_at len 0 heap_start xs ≡ at_end r
      → 2 * pages_for s.heap_max (end heap_start xs + len) ≤ s.machine.pmm.stack_top
      → end heap_start xs + len ≤ 2 ^ 32 - 2 ^ 12
      → Returns (λ p t. Places pgd len s xs p t) (append_chunk pgd len r s)
  append-Places [] r heap back e pages space =
      let none_yet : 0 ≡ r = cc in
      rw (← none_yet) (append_first pgd len big small s back pages space)
  append-Places (b ∷ xs) r heap back e pages space =
      append_behind pgd len big small s b xs r heap e back pages space

pub kmalloc-Places :
    (pgd size : ℕ) (s : Heap) (xs : List Block)
    → size + header_size < 2 ^ 31
    → IsHeap s xs
    → IsBacked pgd s.machine s.heap_max
    → 2 * pages_for s.heap_max (end heap_start (place (size + header_size) xs))
      ≤ s.machine.pmm.stack_top
    → end heap_start (place (size + header_size) xs) ≤ 2 ^ 32 - 2 ^ 12
    → Returns (λ p t. Places pgd (size + header_size) s xs p t) (kmalloc pgd size s)
unfolding kmalloc use_found
kmalloc-Places pgd size s xs small heap back pages space =
    let len = size + header_size in
    let sum : u32 (size + header_size) ≡ size + header_size = omega arith in
    let found =
      ap (λ (a : ℕ). find_chunk heap_fuel len a 0 s) heap.first
      ∙ find_chunk-found_at heap_fuel len 0 heap_start xs s
          (omega
            (arith, length_bound s.headers heap_start xs heap.chain, heap.inside, heap.max_small))
          (omega arith) heap.inside heap.chain in
    rw (sum, found)
      (elim (Found-cases (found_at len 0 heap_start xs)) [
        | inl (cur, e) ↦ rw e (take-Places pgd len (omega arith) small s xs cur heap back e)
        | inr (r, e) ↦
            let at_place = place-at_end len 0 heap_start xs e in
            rw e (
              append-Places pgd len (omega arith) small s xs r heap back e
                (omega (arith, at_place.1)) (omega (arith, at_place.1)))
      ])

-- On a heap that holds a list of blocks `kmalloc` returns, and leaves a heap that holds the list
-- with the new block placed: in the first free block that is long enough, which is cut where the
-- rest is longer than a header, or else behind the last block, with pages mapped under it. The
-- result points behind the header of that block. This wants a request below 2 GB, two free pages
-- for each page that the heap lacks, and an end that stays below the last page of the address
-- space.
pub kmalloc-Placed :
    (pgd size : ℕ) (s : Heap) (xs : List Block)
    → size + header_size < 2 ^ 31
    → IsHeap s xs
    → IsBacked pgd s.machine s.heap_max
    → 2 * pages_for s.heap_max (end heap_start (place (size + header_size) xs))
      ≤ s.machine.pmm.stack_top
    → end heap_start (place (size + header_size) xs) ≤ 2 ^ 32 - 2 ^ 12
    → Returns (λ p t. Placed pgd (size + header_size) xs p t) (kmalloc pgd size s)
kmalloc-Placed pgd size s xs small heap back pages space =
    Returns-mono (kmalloc pgd size s) (λ _ _ h. h.placed)
      (kmalloc-Places pgd size s xs small heap back pages space)
