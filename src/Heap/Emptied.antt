-- ===== src/Heap/Emptied.antt =====
-- What is left of the heap of src/mm/heap.c when everything has been freed.
use bit_simple_kernel.Prelude.{
  ℕ, ◌+◌, ◌-◌, ◌^◌, ◌≤◌, ◌<◌, ◌≡◌, refl, inl, inr, Bool, true, false, List, [], ◌∷◌, ◌++◌, ltb,
  arith, Bool-cases, if◌then◌else◌, length,
}
use bit_simple_kernel.Heap.{Header, Heap, heap_start, header_size}
use bit_simple_kernel.Heap.Blocks.{Block, end, end-ge, Chain}
use bit_simple_kernel.Heap.Find.{is_fit}
use bit_simple_kernel.Heap.Take.{place}
use bit_simple_kernel.Heap.Glue
use bit_simple_kernel.Heap.Glue.{absorbed, absorbed_rest}
use bit_simple_kernel.Heap.Append.{Places}
use bit_simple_kernel.Heap.Kmalloc.{kmalloc-Places}
use bit_simple_kernel.Heap.Release.{Holds, Releases, seal}
use bit_simple_kernel.Heap.Kfree.{join, released, kfree-Releases}
use bit_simple_kernel.Heap.Freed.{absorbed-free}
use bit_simple_kernel.Heap.Used.{UsedAt, used_ge, used_no_fit}
use bit_simple_kernel.Heap.Compact.{Compact, place-Compact, released-Compact}
use bit_simple_kernel.Heap.History.{
  Alloc, Reach, start, malloc, free, IsLive, All-middle, Reach-IsOrdered,
}

abbrev one_if : Bool → ℕ
one_if u = if u then 1 else 0

-- How many blocks of the list are in use.
abbrev pub used_count : List Block → ℕ
used_count [] = 0
used_count (b ∷ bs) = one_if b.used + used_count bs

used_count-append : (xs ys : List Block) → used_count (xs ++ ys) ≡ used_count xs + used_count ys
used_count-append [] ys = omega arith
used_count-append (x ∷ xs) ys = omega (arith, used_count-append xs ys)

used_count-place : (len : ℕ) (xs : List Block) → used_count (place len xs) ≡ 1 + used_count xs
used_count-place len [] = refl
used_count-place len (b ∷ bs) = elim (Bool-cases (is_fit len b)) [
  | inl hit ↦ elim (Bool-cases b.used) [
    | inl u ↦ absurd (used_no_fit len b u hit)
    | inr u ↦ rw hit (elim (Bool-cases (ltb header_size (b.size - len))) [
      | inl cut ↦ rw cut (simp u (omega arith))
      | inr whole ↦ rw whole (simp u (omega arith))
    ])
  ]
  | inr miss ↦ rw miss (omega (arith, used_count-place len bs))
]

used_count-seal :
    (b : Block) (ys : List Block) → b.used ≡ false → used_count (seal b ys) ≡ used_count ys
used_count-seal b [] f = refl
used_count-seal b (c ∷ cs) f = rw f (omega arith)

used_count-join :
    (xs : List Block) (b : Block) (ys : List Block)
    → b.used ≡ false
    → used_count (join xs b ys) ≡ used_count xs + used_count ys
used_count-join [] b ys f = omega (arith, used_count-seal b ys f)
used_count-join (x ∷ []) b ys f = elim (Bool-cases x.used) [
  | inl u ↦ simp u (omega (arith, used_count-seal b ys f))
  | inr u ↦
      simp u
        (omega (arith, used_count-seal (record { used = false; size = x.size + b.size }) ys refl))
]
used_count-join (x ∷ y ∷ xs) b ys f = omega (arith, used_count-join (y ∷ xs) b ys f)

used_count-absorbed_rest : (ys : List Block) → used_count (absorbed_rest ys) ≡ used_count ys
used_count-absorbed_rest [] = refl
used_count-absorbed_rest (c ∷ cs) = elim (Bool-cases c.used) [
  | inl u ↦ simp u refl
  | inr u ↦ simp u (omega arith)
]

used_count-released :
    (xs : List Block) (b : Block) (ys : List Block)
    → b.used ≡ true
    → 1 + used_count (released xs b ys) ≡ used_count (xs ++ b ∷ ys)
used_count-released xs b ys u =
    let joined =
      used_count-join xs (absorbed (Glue.free b) ys) (absorbed_rest ys)
        (absorbed-free (Glue.free b) ys refl) in
    let one : one_if b.used ≡ 1 = rw u refl in
    omega (arith, joined, one, used_count-absorbed_rest ys, used_count-append xs (b ∷ ys))

-- The block at the place of a used block is that block.
middle_used :
    (h : ℕ → Header) (a n p : ℕ) (xs : List Block) (b : Block) (ys : List Block)
    → Chain h p (xs ++ b ∷ ys)
    → a ≡ end p xs
    → UsedAt a n p (xs ++ b ∷ ys)
    → b.used ≡ true
middle_used h a n p [] b ys c e (inl k) = k.1
middle_used h a n p [] b ys c e (inr k) =
    absurd (omega (arith, e, c.3, used_ge a n (p + b.size) ys k))
middle_used h a n p (x ∷ xs) b ys c e (inl k) =
    absurd (omega (arith, e, k.0, c.3, end-ge (p + x.size) xs))
middle_used h a n p (x ∷ xs) b ys c e (inr k) = middle_used h a n (p + x.size) xs b ys c.4 e k

length-middle :
    (cs : List Alloc) (a : Alloc) (ds : List Alloc) → length (cs ++ a ∷ ds) ≡ 1 + length (cs ++ ds)
length-middle [] a ds = omega arith
length-middle (c ∷ cs) a ds = omega (arith, length-middle cs a ds)

module _ (pgd : ℕ) (z : Heap) (h : Holds pgd [] z) where
  Reach-Compact : {s : Heap} {xs : List Block} {cs : List Alloc} → Reach pgd z s xs cs → Compact xs
  Reach-Compact start = (tt, tt)
  Reach-Compact (malloc size {s} {t} {xs} r w e) =
      place-Compact (size + header_size) xs (Reach-Compact r)
  Reach-Compact (free cs a ds xs b ys r e q) = released-Compact xs b ys (Reach-Compact r)

  Reach-used_count :
      {s : Heap} {xs : List Block} {cs : List Alloc}
      → Reach pgd z s xs cs
      → used_count xs ≡ length cs
  Reach-used_count start = refl
  Reach-used_count (malloc size {s} {t} {xs} {cs} r w e) =
      omega (arith, used_count-place (size + header_size) xs, Reach-used_count r)
  Reach-used_count (free cs a ds xs b ys {s} r e q) =
      let o = Reach-IsOrdered pgd z h r in
      let w = All-middle (IsLive (xs ++ b ∷ ys)) cs a ds o.live in
      let used =
        middle_used s.headers w.0 (a.size + header_size) heap_start xs b ys
          o.holds.linked.heap.chain (omega (arith, w.1, e)) w.2 in
      omega (arith, used_count-released xs b ys used, length-middle cs a ds, Reach-used_count r)

all_free : (xs : List Block) → used_count xs ≡ 0 → Compact xs → xs ≡ []
all_free [] e k = refl
all_free (b ∷ []) e k = absurd (let one : one_if b.used ≡ 1 = rw k.1 refl in omega (arith, e, one))
all_free (b ∷ c ∷ bs) e (m, k) =
    let none : (b.used ≡ false) × (c.used ≡ false) = ground arith in
    absurd (elim m.0 [ inl u ↦ (cc) | inr u ↦ (cc) ])

place-end : (len p : ℕ) (xs : List Block) → end p xs ≤ end p (place len xs)
place-end len p [] = omega arith
place-end len p (b ∷ xs) = elim (Bool-cases (is_fit len b)) [
  | inl hit ↦ rw hit (elim (Bool-cases (ltb header_size (b.size - len))) [
    | inl cut ↦
        let same : p + len + (b.size - len) ≡ p + b.size = ground arith in
        rw (cut, ← same) (omega arith)
    | inr whole ↦ rw whole (omega arith)
  ])
  | inr miss ↦ rw miss (place-end len (p + b.size) xs)
]

-- No whole page lies between the end of the list and that of the heap.
Reach-tight :
    (pgd : ℕ) (z : Heap)
    → Holds pgd [] z
    → z.heap_max ≡ heap_start
    → {s : Heap} {xs : List Block} {cs : List Alloc} → Reach pgd z s xs cs
    → s.heap_max < end heap_start xs + 2 ^ 12
Reach-tight pgd z h first start = omega (arith, first)
Reach-tight pgd z h first (malloc size {s} {t} {xs} {cs} {p} r w e) =
    let o = Reach-IsOrdered pgd z h r in
    let places : Places pgd (size + header_size) s xs p t =
      (rw e at (
        kmalloc-Places pgd size s xs w.small o.holds.linked.heap o.holds.backed w.pages w.space)) in
    omega (
      arith,
      places.tight,
      Reach-tight pgd z h first r,
      place-end (size + header_size) heap_start xs,
    )
Reach-tight pgd z h first (free cs a ds xs b ys {s} {t} r e q) =
    let o = Reach-IsOrdered pgd z h r in
    let freed = kfree-Releases pgd s xs b ys o.holds.linked o.holds.backed in
    let after : Releases pgd s.heap_max s.machine.pmm.stack_top (end heap_start (xs ++ b ∷ ys))
        (released xs b ys) t =
      (rw (← e, q) at freed) in
    omega (arith, after.tight, Reach-tight pgd z h first r)

-- After every history of calls from a heap without blocks and pages in which all that was allocated
-- has been freed, the heap has no block again, its list is empty, and it has no page: it ends where
-- it starts. The calls of `kmalloc` had pages enough and cut no block in front of another one.
pub Reach-emptied :
    (pgd : ℕ) (z s : Heap) (xs : List Block)
    → Holds pgd [] z
    → z.heap_max ≡ heap_start
    → Reach pgd z s xs []
    → (xs ≡ []) × (s.heap_first ≡ 0) × (s.heap_max ≡ heap_start)
Reach-emptied pgd z s xs h e r =
    let o = Reach-IsOrdered pgd z h r in
    let none : xs ≡ [] = all_free xs (Reach-used_count pgd z h r) (Reach-Compact pgd z h r) in
    let first = o.holds.linked.heap.first in
    let list_end : end heap_start xs ≡ heap_start = rw none refl in
    (
      none,
      rw none at first,
      omega (arith, Reach-tight pgd z h e r, list_end, o.holds.backed.whole, o.holds.backed.above),
    )
