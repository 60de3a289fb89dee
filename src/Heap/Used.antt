-- ===== src/Heap/Used.antt =====
-- Where the used blocks of a list stand, and that the list operations of `kmalloc` and `kfree` move
-- none of them.
use bit_simple_kernel.Prelude.{
  ℕ, ◌+◌, ◌-◌, ◌≤◌, ◌≡◌, ◌≢◌, ◌∙◌, ap, sym, refl, inl, inr, ◌⊎◌, true, false, List, [], ◌∷◌, ◌++◌,
  ltb, arith, Bool-cases,
}
use bit_simple_kernel.Heap.{Header, header_size}
use bit_simple_kernel.Heap.Blocks.{Block, end, end-ge, Chain}
use bit_simple_kernel.Heap.Find.{is_fit}
use bit_simple_kernel.Heap.Take.{place, placed_at}
use bit_simple_kernel.Heap.Glue.{free, absorbed, absorbed_rest}
use bit_simple_kernel.Heap.Release.{seal}
use bit_simple_kernel.Heap.Kfree.{join, released}
use bit_simple_kernel.Heap.Freed.{absorbed-free}

-- A used block of `n` bytes at least stands at `a`, in a list at `p`.
abbrev pub UsedAt : ℕ → ℕ → ℕ → List Block → Type 0
UsedAt a n p [] = ⊥
UsedAt a n p (b ∷ bs) = ((a ≡ p) × (b.used ≡ true) × (n ≤ b.size)) ⊎ UsedAt a n (p + b.size) bs

pub used_ge : (a n p : ℕ) (xs : List Block) → UsedAt a n p xs → p ≤ a
used_ge a n p [] u = absurd u
used_ge a n p (b ∷ bs) (inl h) = omega (arith, h.0)
used_ge a n p (b ∷ bs) (inr h) = omega (arith, used_ge a n (p + b.size) bs h)

pub used_le : (a n p : ℕ) (xs : List Block) → UsedAt a n p xs → a + n ≤ end p xs
used_le a n p [] u = absurd u
used_le a n p (b ∷ bs) (inl h) = omega (arith, h.0, h.2, end-ge (p + b.size) bs)
used_le a n p (b ∷ bs) (inr h) = used_le a n (p + b.size) bs h

-- Two used blocks do not overlap.
pub used_apart :
    (a n c m p : ℕ) (xs : List Block)
    → UsedAt a n p xs
    → UsedAt c m p xs
    → a ≢ c
    → (a + n ≤ c) ⊎ (c + m ≤ a)
used_apart a n c m p [] u v ne = absurd u
used_apart a n c m p (b ∷ bs) (inl h) (inl k) ne = absurd (ne (h.0 ∙ sym k.0))
used_apart a n c m p (b ∷ bs) (inl h) (inr k) ne =
    omega (arith, h.0, h.2, used_ge c m (p + b.size) bs k)
used_apart a n c m p (b ∷ bs) (inr h) (inl k) ne =
    omega (arith, k.0, k.2, used_ge a n (p + b.size) bs h)
used_apart a n c m p (b ∷ bs) (inr h) (inr k) ne = used_apart a n c m (p + b.size) bs h k ne

-- A used block is no fit.
pub used_no_fit : (len : ℕ) (b : Block) → b.used ≡ true → is_fit len b ≡ true → ⊥
used_no_fit len b u f = ground arith

pub place-UsedAt : (len a n p : ℕ) (xs : List Block) → UsedAt a n p xs → UsedAt a n p (place len xs)
place-UsedAt len a n p [] u = absurd u
place-UsedAt len a n p (b ∷ bs) (inl h) = elim (Bool-cases (is_fit len b)) [
  | inl hit ↦ absurd (used_no_fit len b h.1 hit)
  | inr miss ↦ rw miss (inl h)
]
place-UsedAt len a n p (b ∷ bs) (inr h) = elim (Bool-cases (is_fit len b)) [
  | inl hit ↦ rw hit (elim (Bool-cases (ltb header_size (b.size - len))) [
    | inl cut ↦
        let same : p + b.size ≡ p + len + (b.size - len) = ground arith in
        rw cut (inr (inr (rw (← same) h)))
    | inr whole ↦ rw whole (inr h)
  ])
  | inr miss ↦ rw miss (inr (place-UsedAt len a n (p + b.size) bs h))
]

-- The placed block is used.
pub placed-UsedAt : (len p : ℕ) (xs : List Block) → UsedAt (placed_at len p xs) len p (place len xs)
placed-UsedAt len p [] = inl (refl, refl, omega arith)
placed-UsedAt len p (b ∷ bs) = elim (Bool-cases (is_fit len b)) [
  | inl hit ↦ rw hit (elim (Bool-cases (ltb header_size (b.size - len))) [
    | inl cut ↦ rw cut (inl (refl, refl, omega arith))
    | inr whole ↦ rw whole (inl (refl, refl, ground arith))
  ])
  | inr miss ↦ rw miss (inr (placed-UsedAt len (p + b.size) bs))
]

-- It stands where no used block stood.
pub used_ne_placed :
    (h : ℕ → Header) (len a n p : ℕ) (xs : List Block)
    → Chain h p xs
    → UsedAt a n p xs
    → a ≢ placed_at len p xs
used_ne_placed h len a n p [] c u = absurd u
used_ne_placed h len a n p (b ∷ bs) c (inl k) = elim (Bool-cases (is_fit len b)) [
  | inl hit ↦ absurd (used_no_fit len b k.1 hit)
  | inr miss ↦ rw miss (λ e. omega (arith, e, k.0, c.3, placed_ge len (p + b.size) bs))
]
  where
    placed_ge : (len p : ℕ) (xs : List Block) → p ≤ placed_at len p xs
    placed_ge len p [] = omega arith
    placed_ge len p (b ∷ bs) = ground (arith, placed_ge len (p + b.size) bs)
used_ne_placed h len a n p (b ∷ bs) c (inr k) = elim (Bool-cases (is_fit len b)) [
  | inl hit ↦ rw hit (λ e. omega (arith, e, c.3, used_ge a n (p + b.size) bs k))
  | inr miss ↦ rw miss (used_ne_placed h len a n (p + b.size) bs c.4 k)
]

-- A block that is not used any more is no used block.
drop_free :
    (a n p : ℕ) (b : Block) (ys : List Block)
    → b.used ≡ false
    → UsedAt a n p (b ∷ ys)
    → UsedAt a n (p + b.size) ys
drop_free a n p b ys f (inl h) = absurd (cc)
drop_free a n p b ys f (inr h) = h

seal-UsedAt :
    (a n p : ℕ) (b : Block) (ys : List Block)
    → b.used ≡ false
    → UsedAt a n (p + b.size) ys
    → UsedAt a n p (seal b ys)
seal-UsedAt a n p b [] f u = absurd u
seal-UsedAt a n p b (c ∷ cs) f u = inr u

join-UsedAt :
    (a n p : ℕ) (xs : List Block) (b : Block) (ys : List Block)
    → b.used ≡ false
    → UsedAt a n p (xs ++ b ∷ ys)
    → UsedAt a n p (join xs b ys)
join-UsedAt a n p [] b ys f u = seal-UsedAt a n p b ys f (drop_free a n p b ys f u)
join-UsedAt a n p (x ∷ []) b ys f (inl h) = simp h.1 (inl (h.0, refl, h.2))
join-UsedAt a n p (x ∷ []) b ys f (inr h) =
    let left = drop_free a n (p + x.size) b ys f h in
    elim (Bool-cases x.used) [
      | inl v ↦ simp v (inr (seal-UsedAt a n (p + x.size) b ys f left))
      | inr v ↦
          let same : p + x.size + b.size ≡ p + (x.size + b.size) = omega arith in
          simp v (
            seal-UsedAt a n p (record x { used = false; size = x.size + b.size }) ys refl
              (rw same at left))
    ]
join-UsedAt a n p (x ∷ y ∷ xs) b ys f (inl h) = inl h
join-UsedAt a n p (x ∷ y ∷ xs) b ys f (inr h) = inr (join-UsedAt a n (p + x.size) (y ∷ xs) b ys f h)

absorbed-UsedAt :
    (a n p : ℕ) (xs : List Block) (b : Block) (ys : List Block)
    → a ≢ end p xs
    → UsedAt a n p (xs ++ b ∷ ys)
    → UsedAt a n p (xs ++ absorbed (free b) ys ∷ absorbed_rest ys)
absorbed-UsedAt a n p [] b ys ne (inl h) = absurd (ne h.0)
absorbed-UsedAt a n p [] b [] ne (inr h) = absurd h
absorbed-UsedAt a n p [] b (c ∷ cs) ne (inr (inl h)) = simp h.1 (inr (inl (h.0, refl, h.2)))
absorbed-UsedAt a n p [] b (c ∷ cs) ne (inr (inr h)) = elim (Bool-cases c.used) [
  | inl v ↦ simp v (inr (inr h))
  | inr v ↦
      let same : p + b.size + c.size ≡ p + (b.size + c.size) = omega arith in
      simp v (inr (rw same at h))
]
absorbed-UsedAt a n p (x ∷ xs) b ys ne (inl h) = inl h
absorbed-UsedAt a n p (x ∷ xs) b ys ne (inr h) = inr (absorbed-UsedAt a n (p + x.size) xs b ys ne h)

-- `kfree` of one block leaves every other one where it is.
pub released-UsedAt :
    (a n p : ℕ) (xs : List Block) (b : Block) (ys : List Block)
    → a ≢ end p xs
    → UsedAt a n p (xs ++ b ∷ ys)
    → UsedAt a n p (released xs b ys)
released-UsedAt a n p xs b ys ne u =
    join-UsedAt a n p xs (absorbed (free b) ys) (absorbed_rest ys) (absorbed-free (free b) ys refl)
      (absorbed-UsedAt a n p xs b ys ne u)

-- Where a used block stands the list can be split.
pub UsedAt-split :
    (a n p : ℕ) (xs : List Block)
    → UsedAt a n p xs
    → (ls : List Block) × (b : Block) × (rs : List Block) × (xs ≡ ls ++ b ∷ rs) × (end p ls ≡ a)
UsedAt-split a n p [] u = absurd u
UsedAt-split a n p (b ∷ bs) (inl h) = ([], b, bs, refl, sym h.0)
UsedAt-split a n p (b ∷ bs) (inr h) =
    let (ls, c, rs, e, q) = UsedAt-split a n (p + b.size) bs h in
    (b ∷ ls, c, rs, ap (λ l. b ∷ l) e, q)
