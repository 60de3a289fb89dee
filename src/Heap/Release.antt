-- ===== src/Heap/Release.antt =====
-- The end of `glue_chunk` of src/mm/heap.c: the block that is left is given up with `free_chunk` if
-- it is the last one.
use mathlib.Core.List.{append-nil}
use bit_simple_kernel.Prelude.{
  ℕ, ◌+◌, ◌/◌, ◌^◌, ◌<◌, ◌⊎◌, inl, inr, ◌≤◌, ◌==◌, ◌≡◌, ◌∙◌, sym, refl, false, List, [], ◌∷◌, ◌++◌,
  arith, if◌then◌else◌, Cmd, pure, Returns, Returns-mono, ◌>>=◌,
}
use bit_simple_kernel.Heap.{Header, Heap, heap_start, heap_fuel, load, free_chunk, drop_pages}
use bit_simple_kernel.Heap.Blocks.{Block, link, end, Chain, Backs, IsLinked, end-append, end-ge}
use bit_simple_kernel.Heap.Access.{upd, upd_self, upd_ne, with_headers, load-ok, update-ok}
use bit_simple_kernel.Heap.Zip.{IsZip, IsZip-back, IsZip-Chain, last_of-snoc}
use bit_simple_kernel.Heap.Backing.{IsBacked}
use bit_simple_kernel.Heap.Shrink.{drop_pages-Shrinks}
use bit_simple_kernel.Heap.Glue.{IsZip-write}
use bit_simple_kernel.Heap.Absorb.{here-IsMapped}

-- Induction on lists from the end.
pub snoc-elim :
    (P : List Block → Type 0)
    → P []
    → ((xs : List Block) (a : Block) → P (xs ++ a ∷ []))
    → (xs : List Block) → P xs
snoc-elim P n s [] = n
snoc-elim P n s (x ∷ xs) = snoc-elim (λ l. P (x ∷ l)) (s [] x) (λ l a. s (x ∷ l) a) xs

-- A block that is last is given up; the pages behind the end of the list need not stay.
abbrev pub seal : Block → List Block → List Block
seal b [] = []
seal b (c ∷ cs) = b ∷ c ∷ cs

-- The heap holds the list, with right links both ways, and its pages are in order.
pub record Holds (pgd : ℕ) (xs : List Block) (s : Heap) : Type 0 where
  pub linked : IsLinked s xs
  pub backed : IsBacked pgd s.machine s.heap_max

-- What `kfree` leaves of a heap that ended at `top`, where `pages` pages were free and the list ended
-- at `old`: it holds the list `xs`; as many pages as it has lost are free again; and if the list
-- has become shorter, no whole page is left behind its end.
pub record Releases (pgd top pages old : ℕ) (xs : List Block) (t : Heap) : Type 0 where
  pub holds : Holds pgd xs t
  pub falls : t.heap_max ≤ top
  pub balance : t.machine.pmm.stack_top + t.heap_max / 2 ^ 12 ≡ pages + top / 2 ^ 12
  pub tight :
      (t.heap_max < end heap_start xs + 2 ^ 12) ⊎ (t.heap_max ≡ top) × (end heap_start xs ≡ old)

-- The last statement of `glue_chunk`.
abbrev pub end_of_glue : ℕ → ℕ → Cmd Heap (Unit {0})
end_of_glue pgd p = do h ← load p; if h.next == 0 then free_chunk pgd p else pure tt

pub link-middle :
    (p : ℕ) (xs : List Block) (b : Block) (ys : List Block) → link p (xs ++ b ∷ ys) ≡ p
link-middle p [] b ys = refl
link-middle p (x ∷ xs) b ys = refl

-- The loop of `free_chunk` keeps a list that ends where the chunk starts.
drop_pages-Releases :
    (pgd old : ℕ) (xs : List Block) (s : Heap)
    → s.heap_first ≡ link heap_start xs
    → Chain s.headers heap_start xs
    → Backs s.headers 0 heap_start xs
    → end heap_start xs ≤ s.heap_max
    → IsBacked pgd s.machine s.heap_max
    → Returns
        (λ _ t. Releases pgd s.heap_max s.machine.pmm.stack_top old xs t)
        (drop_pages pgd heap_fuel (end heap_start xs) s)
drop_pages-Releases pgd old xs s first chain backs inside b =
    Returns-mono (drop_pages pgd heap_fuel (end heap_start xs) s)
      (λ _ t g. record {
        holds = record {
          linked = record {
            heap = record {
              first = g.first ∙ first;
              chain = rw g.headers chain;
              inside = g.enough;
              max_small = omega (arith, g.falls, b.below);
            };
            backs = rw g.headers backs;
          };
          backed = g.backed;
        };
        falls = g.falls;
        balance = g.balance;
        tight = inl g.tight;
      })
      (drop_pages-Shrinks pgd heap_fuel (end heap_start xs) s (omega (arith, b.below))
        (end-ge heap_start xs) inside b)

-- `free_chunk` on the only block, and on one behind another.
only :
    (pgd old : ℕ) (b : Block) (s : Heap)
    → IsZip s.headers [] b []
    → s.heap_first ≡ heap_start
    → heap_start + b.size ≤ s.heap_max
    → IsBacked pgd s.machine s.heap_max
    → Returns
        (λ _ t. Releases pgd s.heap_max s.machine.pmm.stack_top old [] t)
        (free_chunk pgd heap_start s)
unfolding free_chunk
only pgd old b s z first inside k =
    let here = here-IsMapped s [] b [] z inside in
    rw (load-ok heap_start s here.above here.below, z.prev)
      (drop_pages-Releases pgd old [] (record s { heap_first = 0 }) refl tt tt (omega arith) k)

behind :
    (pgd old : ℕ) (xs : List Block) (a b : Block) (s : Heap)
    → IsZip s.headers (xs ++ a ∷ []) b []
    → s.heap_first ≡ heap_start
    → end heap_start (xs ++ a ∷ []) + b.size ≤ s.heap_max
    → IsBacked pgd s.machine s.heap_max
    → Returns
        (λ _ t. Releases pgd s.heap_max s.machine.pmm.stack_top old (xs ++ a ∷ []) t)
        (free_chunk pgd (end heap_start (xs ++ a ∷ [])) s)
unfolding free_chunk
behind pgd old xs a b s z first inside k =
    let p = end heap_start xs in
    let here = here-IsMapped s (xs ++ a ∷ []) b [] z inside in
    let back = IsZip-back s.headers xs a b [] z in
    let place : end heap_start (xs ++ a ∷ []) ≡ p + a.size = end-append heap_start xs (a ∷ []) in
    let there = here-IsMapped s xs a (b ∷ []) back (omega (arith, inside, place)) in
    let not_null : (p == 0) ≡ false = ground (arith, there.above) in
    let cut : Header → Header = λ r. record r { next = 0 } in
    let h = upd s.headers p cut in
    let kept = IsZip-Chain h xs a [] (
      IsZip-write s.headers h xs a a (b ∷ []) [] back
        (λ q l. upd_ne s.headers p cut q (λ e. omega arith))
        (upd_self s.headers p cut ∙ rw (back.allocated, back.length) refl) back.long tt tt) in
    rw
      (
        load-ok (end heap_start (xs ++ a ∷ [])) s here.above here.below,
        z.prev,
        last_of-snoc 0 heap_start xs a,
        not_null,
        update-ok p s there.above there.below,
      )
      (drop_pages-Releases pgd old (xs ++ a ∷ []) (with_headers s h)
        (first ∙ sym (link-middle heap_start xs a [])) kept.0 kept.1 (omega (arith, z.long)) k)

-- `free_chunk` on the last block.
free_chunk-Releases :
    (pgd old : ℕ) (xs : List Block) (b : Block) (s : Heap)
    → IsZip s.headers xs b []
    → s.heap_first ≡ heap_start
    → end heap_start xs + b.size ≤ s.heap_max
    → IsBacked pgd s.machine s.heap_max
    → Returns
        (λ _ t. Releases pgd s.heap_max s.machine.pmm.stack_top old xs t)
        (free_chunk pgd (end heap_start xs) s)
free_chunk-Releases pgd old =
    snoc-elim
      (λ xs.
        (b : Block) (s : Heap)
        → IsZip s.headers xs b []
        → s.heap_first ≡ heap_start
        → end heap_start xs + b.size ≤ s.heap_max
        → IsBacked pgd s.machine s.heap_max
        → Returns (λ _ t. Releases pgd s.heap_max s.machine.pmm.stack_top old xs t)
            (free_chunk pgd (end heap_start xs) s))
      (only pgd old) (behind pgd old)

pub end_of_glue-Releases :
    (pgd old : ℕ) (xs : List Block) (b : Block) (ys : List Block) (s : Heap)
    → IsZip s.headers xs b ys
    → s.heap_first ≡ heap_start
    → end (end heap_start xs + b.size) ys ≡ old
    → old ≤ s.heap_max
    → IsBacked pgd s.machine s.heap_max
    → Returns
        (λ _ t. Releases pgd s.heap_max s.machine.pmm.stack_top old (xs ++ seal b ys) t)
        (end_of_glue pgd (end heap_start xs) s)
end_of_glue-Releases pgd old xs b [] s z first ends within k =
    let inside : end heap_start xs + b.size ≤ s.heap_max = omega (arith, ends, within) in
    let here = here-IsMapped s xs b [] z inside in
    rw (load-ok (end heap_start xs) s here.above here.below, z.next, append-nil xs)
      (free_chunk-Releases pgd old xs b s z first inside k)
end_of_glue-Releases pgd old xs b (c ∷ ys) s z first ends within k =
    let inside : end (end heap_start xs + b.size) (c ∷ ys) ≤ s.heap_max =
      omega (arith, ends, within) in
    let p = end heap_start xs in
    let here = here-IsMapped s xs b (c ∷ ys) z inside in
    let more : (p + b.size == 0) ≡ false = ground (arith, end-ge heap_start xs) in
    let lists = IsZip-Chain s.headers xs b (c ∷ ys) z in
    rw (load-ok p s here.above here.below, z.next, more)
      (record {
        holds = record {
          linked = record {
            heap = record {
              first = first ∙ sym (link-middle heap_start xs b (c ∷ ys));
              chain = lists.0;
              inside = rw (end-append heap_start xs (b ∷ c ∷ ys)) inside;
              max_small = k.below;
            };
            backs = lists.1;
          };
          backed = k;
        };
        falls = omega arith;
        balance = refl;
        tight = inr (refl, end-append heap_start xs (b ∷ c ∷ ys) ∙ ends);
      })
