-- ===== src/Heap/History.antt =====
-- Histories of calls of `kmalloc` and `kfree` of src/mm/heap.c: what is allocated at each time.
use bit_simple_kernel.Prelude.{
  ℕ, ◌+◌, ◌*◌, ◌-◌, ◌^◌, ◌≤◌, ◌<◌, ◌≡◌, ◌≢◌, ◌∙◌, ap, sym, ◌⊎◌, true, List, [], ◌∷◌, ◌++◌, arith,
  All, All-map, ok, Returns, Returns-ok,
}
use bit_simple_kernel.Heap.{Heap, heap_start, header_size, kmalloc, kfree}
use bit_simple_kernel.Heap.Blocks.{Block, end}
use bit_simple_kernel.Heap.Take.{place, placed_at}
use bit_simple_kernel.Heap.Backing.{pages_for}
use bit_simple_kernel.Heap.Links.{keeps_links}
use bit_simple_kernel.Heap.Append.{Places}
use bit_simple_kernel.Heap.Kmalloc.{kmalloc-Places}
use bit_simple_kernel.Heap.Release.{Holds}
use bit_simple_kernel.Heap.Kfree.{released, kfree-Holds}
use bit_simple_kernel.Heap.Used.{
  UsedAt, used_le, used_ge, used_apart, place-UsedAt, placed-UsedAt, used_ne_placed,
  released-UsedAt, UsedAt-split,
}

-- What `kmalloc(size)` has returned.
pub record Alloc : Type 0 where
  pub at : ℕ
  pub size : ℕ

-- The bytes of the two do not overlap, and neither do those of their headers.
abbrev pub Apart : Alloc → Alloc → Type 0
Apart a b = (a.at + a.size + header_size ≤ b.at) ⊎ (b.at + b.size + header_size ≤ a.at)

abbrev pub AllApart : List Alloc → Type 0
AllApart [] = Unit {0}
AllApart (a ∷ cs) = All (Apart a) cs × AllApart cs

-- Enough of everything for `kmalloc` of `len` bytes with the header: free pages, room in the address
-- space, and no cut in the middle of the list.
pub record Allows (len : ℕ) (xs : List Block) (s : Heap) : Type 0 where
  pub small : len < 2 ^ 31
  pub pages : 2 * pages_for s.heap_max (end heap_start (place len xs)) ≤ s.machine.pmm.stack_top
  pub space : end heap_start (place len xs) ≤ 2 ^ 32 - 2 ^ 12
  pub links : keeps_links len xs ≡ true

module _ (pgd : ℕ) where
  -- What a history of calls may lead to from a heap without blocks: the heap, its blocks, and what is
  -- allocated. `kfree` is called on allocated memory only.
  pub data Reach (z : Heap) : Heap → List Block → List Alloc → Type 0 where
    start : Reach z z [] []
    malloc :
        (size : ℕ) {s t : Heap} {xs : List Block} {cs : List Alloc} {p : ℕ}
        → Reach z s xs cs
        → Allows (size + header_size) xs s
        → kmalloc pgd size s ≡ ok p t
        → Reach z t (place (size + header_size) xs) (record { at = p; size = size } ∷ cs)
    free :
        (cs : List Alloc) (a : Alloc) (ds : List Alloc) (xs : List Block) (b : Block)
        (ys : List Block) {s t : Heap}
        → Reach z s (xs ++ b ∷ ys) (cs ++ a ∷ ds)
        → a.at ≡ end heap_start xs + header_size
        → kfree pgd a.at s ≡ ok tt t
        → Reach z t (released xs b ys) (cs ++ ds)

-- Its memory is that of a used block.
abbrev pub IsLive : List Block → Alloc → Type 0
IsLive xs a = (c : ℕ) × (a.at ≡ c + header_size) × UsedAt c (a.size + header_size) heap_start xs

All-zip :
    {P Q R : Alloc → Type 0}
    → ((c : Alloc) → P c → Q c → R c)
    → (cs : List Alloc) → All P cs
    → All Q cs
    → All R cs
All-zip f [] h k = tt
All-zip f (c ∷ cs) h k = (f c h.0 k.0, All-zip f cs h.1 k.1)

pub record IsOrdered (pgd : ℕ) (s : Heap) (xs : List Block) (cs : List Alloc) : Type 0 where
  pub holds : Holds pgd xs s
  pub live : All (IsLive xs) cs
  pub apart : AllApart cs

All-without :
    (P : Alloc → Type 0) (cs : List Alloc) (a : Alloc) (ds : List Alloc)
    → All P (cs ++ a ∷ ds)
    → All P (cs ++ ds)
All-without P [] a ds h = h.1
All-without P (c ∷ cs) a ds h = (h.0, All-without P cs a ds h.1)

AllApart-without :
    (cs : List Alloc) (a : Alloc) (ds : List Alloc) → AllApart (cs ++ a ∷ ds) → AllApart (cs ++ ds)
AllApart-without [] a ds h = h.1
AllApart-without (c ∷ cs) a ds h = (All-without (Apart c) cs a ds h.0, AllApart-without cs a ds h.1)

pub All-middle :
    (P : Alloc → Type 0) (cs : List Alloc) (a : Alloc) (ds : List Alloc)
    → All P (cs ++ a ∷ ds)
    → P a
All-middle P [] a ds h = h.0
All-middle P (c ∷ cs) a ds h = All-middle P cs a ds h.1

others_elsewhere :
    (cs : List Alloc) (a : Alloc) (ds : List Alloc)
    → AllApart (cs ++ a ∷ ds)
    → All (λ c. c.at ≢ a.at) (cs ++ ds)
others_elsewhere [] a ds h = All-map (λ c k e. omega (arith, k, e)) ds h.0
others_elsewhere (c ∷ cs) a ds h =
    (λ e. omega (arith, e, All-middle (Apart c) cs a ds h.0), others_elsewhere cs a ds h.1)

module _ (pgd : ℕ) where
  -- One call of `kmalloc`.
  malloc-IsOrdered :
      (size : ℕ) (s t : Heap) (xs : List Block) (cs : List Alloc) (p : ℕ)
      → IsOrdered pgd s xs cs
      → keeps_links (size + header_size) xs ≡ true
      → Places pgd (size + header_size) s xs p t
      → IsOrdered pgd t (place (size + header_size) xs) (record { at = p; size = size } ∷ cs)
  malloc-IsOrdered size s t xs cs p o k r =
      let len = size + header_size in
      let new = placed-UsedAt len heap_start xs in
      record {
        holds = record {
          linked = record { heap = r.placed.heap; backs = r.backs o.holds.linked.backs k };
          backed = r.placed.backed;
        };
        live = (
          (placed_at len heap_start xs, r.placed.result, new),
          All-map
              (λ c (w : IsLive xs c).
                (w.0, w.1, place-UsedAt len w.0 (c.size + header_size) heap_start xs w.2))
              cs o.live,
        );
        apart = (
          All-map
              (λ c (w : IsLive xs c).
                let ne =
                  used_ne_placed s.headers len w.0 (c.size + header_size) heap_start xs
                    o.holds.linked.heap.chain w.2 in
                let old = place-UsedAt len w.0 (c.size + header_size) heap_start xs w.2 in
                omega (
                  arith,
                  w.1,
                  r.placed.result,
                  used_apart (placed_at len heap_start xs) len w.0 (c.size + header_size) heap_start
                      (place len xs) new old (λ e. ne (sym e)),
                ))
              cs o.live,
          o.apart,
        );
      }

  -- One call of `kfree`.
  free-IsOrdered :
      (cs : List Alloc) (a : Alloc) (ds : List Alloc) (xs : List Block) (b : Block)
      (ys : List Block) (s t : Heap)
      → IsOrdered pgd s (xs ++ b ∷ ys) (cs ++ a ∷ ds)
      → a.at ≡ end heap_start xs + header_size
      → Holds pgd (released xs b ys) t
      → IsOrdered pgd t (released xs b ys) (cs ++ ds)
  free-IsOrdered cs a ds xs b ys s t o e h = record {
    holds = h;
    live =
        All-zip
          (λ c (ne : c.at ≢ a.at) (w : IsLive (xs ++ b ∷ ys) c). (
            w.0,
            w.1,
            released-UsedAt w.0 (c.size + header_size) heap_start xs b ys
                (λ q. ne (w.1 ∙ ap (λ (n : ℕ). n + header_size) q ∙ sym e)) w.2,
          ))
          (cs ++ ds) (others_elsewhere cs a ds o.apart)
          (All-without (IsLive (xs ++ b ∷ ys)) cs a ds o.live);
    apart = AllApart-without cs a ds o.apart;
  }

  pub Reach-IsOrdered :
      (z : Heap)
      → Holds pgd [] z
      → {s : Heap} {xs : List Block} {cs : List Alloc} → Reach pgd z s xs cs
      → IsOrdered pgd s xs cs
  Reach-IsOrdered z h start = record { holds = h; live = tt; apart = tt }
  Reach-IsOrdered z h (malloc size {s} {t} {xs} {cs} {p} r w e) =
      let o = Reach-IsOrdered z h r in
      let places =
        kmalloc-Places pgd size s xs w.small o.holds.linked.heap o.holds.backed w.pages w.space in
      malloc-IsOrdered size s t xs cs p o w.links (rw e at places)
  Reach-IsOrdered z h (free cs a ds xs b ys {s} {t} r e q) =
      let o = Reach-IsOrdered z h r in
      let freed = kfree-Holds pgd s xs b ys o.holds.linked o.holds.backed in
      free-IsOrdered cs a ds xs b ys s t o e (rw (← e, q) at freed)

-- The memory of an allocation lies in the pages of the heap.
abbrev pub IsInside : Heap → Alloc → Type 0
IsInside s a = (heap_start + header_size ≤ a.at) × (a.at + a.size ≤ s.heap_max)

-- After every history of calls from a heap without blocks, what is allocated lies in the pages of
-- the heap, and no two allocations share a byte, not even with their headers. In the history
-- `kmalloc` is called where there are pages enough and its search does not find a block that would
-- be cut in front of another one, and `kfree` on what is allocated at that time.
pub Reach-AllApart :
    (pgd : ℕ) (z s : Heap) (xs : List Block) (cs : List Alloc)
    → Holds pgd [] z
    → Reach pgd z s xs cs
    → AllApart cs × All (IsInside s) cs
Reach-AllApart pgd z s xs cs h r =
    let o = Reach-IsOrdered pgd z h r in
    (
      o.apart,
      All-map
          (λ c (w : IsLive xs c). (
            omega (arith, w.1, used_ge w.0 (c.size + header_size) heap_start xs w.2),
            omega (
              arith,
              w.1,
              used_le w.0 (c.size + header_size) heap_start xs w.2,
              o.holds.linked.heap.inside,
            ),
          ))
          cs o.live,
    )

-- After every history of calls of `kmalloc` and `kfree` from a heap without blocks, `kfree` returns
-- for everything that is allocated, and what it leaves is the end of a history again, without that
-- allocation. The calls of `kmalloc` had pages enough and cut no block in front of another one.
pub Reach-kfree :
    (pgd : ℕ) (z s : Heap) (xs : List Block) (cs : List Alloc) (a : Alloc) (ds : List Alloc)
    → Holds pgd [] z
    → Reach pgd z s xs (cs ++ a ∷ ds)
    → Returns (λ _ t. (ys : List Block) × Reach pgd z t ys (cs ++ ds)) (kfree pgd a.at s)
Reach-kfree pgd z s xs cs a ds h r =
    let o = Reach-IsOrdered pgd z h r in
    let w = All-middle (IsLive xs) cs a ds o.live in
    let cut = UsedAt-split w.0 (a.size + header_size) heap_start xs w.2 in
    let (ls, b, rs, e, q) = cut in
    let at_end : a.at ≡ end heap_start ls + header_size =
      w.1 ∙ ap (λ (n : ℕ). n + header_size) (sym q) in
    let freed = kfree-Holds pgd s ls b rs (rw e at o.holds.linked) o.holds.backed in
    let back : Returns (λ _ t. Holds pgd (released ls b rs) t) (kfree pgd a.at s) =
      rw at_end freed in
    let (u, t, run, k) = Returns-ok (kfree pgd a.at s) back in
    rw run (released ls b rs, free cs a ds ls b rs (rw e at r) at_end run)
