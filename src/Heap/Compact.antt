-- ===== src/Heap/Compact.antt =====
-- The free blocks of a list that `kmalloc` and `kfree` of src/mm/heap.c have made: no two of them are
-- neighbours, and none stands alone.
use bit_simple_kernel.Prelude.{
  ℕ, ◌+◌, ◌-◌, ◌≡◌, refl, inl, inr, ◌⊎◌, true, false, List, [], ◌∷◌, ◌++◌, ltb, Bool-cases,
}
use bit_simple_kernel.Heap.{header_size}
use bit_simple_kernel.Heap.Blocks.{Block, block}
use bit_simple_kernel.Heap.Find.{is_fit}
use bit_simple_kernel.Heap.Take.{place}
use bit_simple_kernel.Heap.Glue.{free, absorbed, absorbed_rest}
use bit_simple_kernel.Heap.Release.{seal}
use bit_simple_kernel.Heap.Kfree.{join, released}
use bit_simple_kernel.Heap.Freed.{absorbed-free}
use bit_simple_kernel.Heap.Used.{used_no_fit}

abbrev pub Merged : List Block → Type 0
Merged [] = Unit {0}
Merged (b ∷ []) = Unit {0}
Merged (b ∷ c ∷ bs) = ((b.used ≡ true) ⊎ (c.used ≡ true)) × Merged (c ∷ bs)

-- The list is not one free block.
abbrev pub Anchored : List Block → Type 0
Anchored [] = Unit {0}
Anchored (b ∷ []) = b.used ≡ true
Anchored (b ∷ c ∷ bs) = Unit {0}

abbrev pub Compact : List Block → Type 0
Compact xs = Merged xs × Anchored xs

-- Behind a free block any block may stand.
any_head : (b c : Block) (bs : List Block) → b.used ≡ false → Merged (b ∷ bs) → Merged (c ∷ bs)
any_head b c [] f m = tt
any_head b c (d ∷ ds) f (inl u, m) = absurd (cc)
any_head b c (d ∷ ds) f (inr u, m) = (inr u, m)

used_head : (b c : Block) (bs : List Block) → c.used ≡ true → Merged (b ∷ bs) → Merged (c ∷ bs)
used_head b c [] u m = tt
used_head b c (d ∷ ds) u m = (inl u, m.1)

Merged-tail : (b : Block) (bs : List Block) → Merged (b ∷ bs) → Merged bs
Merged-tail b [] m = tt
Merged-tail b (c ∷ bs) m = m.1

fit_free : (len : ℕ) (b : Block) → is_fit len b ≡ true → b.used ≡ false
fit_free len b f = elim (Bool-cases b.used) [ inl u ↦ absurd (used_no_fit len b u f) | inr u ↦ u ]

place_behind : (len : ℕ) (b : Block) (bs : List Block) → Merged (b ∷ bs) → Merged (b ∷ place len bs)
place_behind len b [] m = (inr refl, tt)
place_behind len b (c ∷ cs) m = elim (Bool-cases (is_fit len c)) [
  | inl hit ↦ rw hit (elim (Bool-cases (ltb header_size (c.size - len))) [
    | inl cut ↦
        rw cut (
          inr refl,
          (inl refl, any_head c (block false (c.size - len)) cs (fit_free len c hit) m.1),
        )
    | inr whole ↦ rw whole (inr refl, used_head c (block true c.size) cs refl m.1)
  ])
  | inr miss ↦ rw miss (m.0, place_behind len c cs m.1)
]

place_rooted : (len : ℕ) (b : Block) (bs : List Block) → Anchored (b ∷ place len bs)
place_rooted len b [] = tt
place_rooted len b (c ∷ cs) = elim (Bool-cases (is_fit len c)) [
  | inl hit ↦ rw hit (elim (Bool-cases (ltb header_size (c.size - len))) [
    | inl cut ↦ rw cut tt
    | inr whole ↦ rw whole tt
  ])
  | inr miss ↦ rw miss tt
]

one_rooted : (n : ℕ) (bs : List Block) → Anchored (block true n ∷ bs)
one_rooted n [] = refl
one_rooted n (c ∷ cs) = tt

pub place-Compact : (len : ℕ) (xs : List Block) → Compact xs → Compact (place len xs)
place-Compact len [] k = (tt, refl)
place-Compact len (b ∷ bs) (m, a) = elim (Bool-cases (is_fit len b)) [
  | inl hit ↦ rw hit (elim (Bool-cases (ltb header_size (b.size - len))) [
    | inl cut ↦
        rw cut ((inl refl, any_head b (block false (b.size - len)) bs (fit_free len b hit) m), tt)
    | inr whole ↦ rw whole (used_head b (block true b.size) bs refl m, one_rooted b.size bs)
  ])
  | inr miss ↦ rw miss (place_behind len b bs m, place_rooted len b bs)
]

-- A free block that is sealed, alone or behind a used block.
seal-Compact : (b : Block) (ys : List Block) → Merged (b ∷ ys) → Compact (seal b ys)
seal-Compact b [] m = (tt, tt)
seal-Compact b (c ∷ cs) m = (m, tt)

seal_behind :
    (x b : Block) (ys : List Block) → x.used ≡ true → Merged (b ∷ ys) → Compact (x ∷ seal b ys)
seal_behind x b [] u m = (tt, u)
seal_behind x b (c ∷ cs) u m = ((inl u, m), tt)

module _ (b : Block) (ys : List Block) (f : b.used ≡ false) (m : Merged (b ∷ ys)) where
  join_behind :
      (x y : Block) (xs : List Block) → Merged (x ∷ y ∷ xs) → Compact (x ∷ join (y ∷ xs) b ys)
  join_behind x y [] (inl u, k) = elim (Bool-cases y.used) [
    | inl v ↦ simp v ((inl u, (seal_behind y b ys v m).0), tt)
    | inr v ↦ simp v (
        seal_behind x (record y { used = false; size = y.size + b.size }) ys u
          (any_head b (record y { used = false; size = y.size + b.size }) ys f m))
  ]
  join_behind x y [] (inr u, k) = simp u ((inr refl, (seal_behind y b ys u m).0), tt)
  join_behind x y (z ∷ zs) k = ((k.0, (join_behind y z zs k.1).0), tt)

  pub join-Compact : (xs : List Block) → Merged xs → Compact (join xs b ys)
  join-Compact [] k = seal-Compact b ys m
  join-Compact (x ∷ []) k = elim (Bool-cases x.used) [
    | inl v ↦ simp v (seal_behind x b ys v m)
    | inr v ↦ simp v (
        seal-Compact (record x { used = false; size = x.size + b.size }) ys
          (any_head b (record x { used = false; size = x.size + b.size }) ys f m))
  ]
  join-Compact (x ∷ y ∷ xs) k = join_behind x y xs k

Merged-front : (xs ys : List Block) → Merged (xs ++ ys) → Merged xs
Merged-front [] ys m = tt
Merged-front (x ∷ []) ys m = tt
Merged-front (x ∷ y ∷ xs) ys m = (m.0, Merged-front (y ∷ xs) ys m.1)

Merged-back : (xs ys : List Block) → Merged (xs ++ ys) → Merged ys
Merged-back [] ys m = m
Merged-back (x ∷ xs) ys m = Merged-back xs ys (Merged-tail x (xs ++ ys) m)

absorbed-Merged :
    (b : Block) (ys : List Block)
    → Merged (b ∷ ys)
    → Merged (absorbed (free b) ys ∷ absorbed_rest ys)
absorbed-Merged b [] m = tt
absorbed-Merged b (c ∷ cs) m = elim (Bool-cases c.used) [
  | inl v ↦ simp v (inr refl, m.1)
  | inr v ↦ simp v (any_head c (record { used = false; size = b.size + c.size }) cs v m.1)
]

pub released-Compact :
    (xs : List Block) (b : Block) (ys : List Block)
    → Compact (xs ++ b ∷ ys)
    → Compact (released xs b ys)
released-Compact xs b ys (m, a) =
    join-Compact (absorbed (free b) ys) (absorbed_rest ys) (absorbed-free (free b) ys refl)
      (absorbed-Merged b ys (Merged-back xs (b ∷ ys) m)) xs (Merged-front xs (b ∷ ys) m)
