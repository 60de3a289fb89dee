-- ===== src/Heap/Appended.antt =====
-- The list of blocks when a new one is put behind the last one, as `kmalloc` of src/mm/heap.c does.
use bit_simple_kernel.Prelude.{
  ℕ, ◌+◌, ◌≤◌, ◌≡◌, ◌≢◌, ◌∙◌, refl, true, List, [], ◌∷◌, arith, Bool-cases, inl, inr,
}
use bit_simple_kernel.Heap.{Header, header_size, fits, at_end}
use bit_simple_kernel.Heap.Blocks.{Block, end, Chain, Backs}
use bit_simple_kernel.Heap.Find.{is_fit, found_at}
use bit_simple_kernel.Heap.Take.{place, placed_at, link-place}

-- The chunk at `r` is the last one of a list at `p`.
pub record IsLast (h : ℕ → Header) (p : ℕ) (xs : List Block) (r : ℕ) : Type 0 where
  pub after : p ≤ r
  pub ends : r + (h r).length ≡ end p xs
  pub long : header_size ≤ (h r).length

pub at_end-IsLast :
    (h : ℕ → Header) (len q p : ℕ) (b : Block) (xs : List Block) (r : ℕ)
    → Chain h p (b ∷ xs)
    → found_at len q p (b ∷ xs) ≡ at_end r
    → IsLast h p (b ∷ xs) r
at_end-IsLast h len q p b [] r c e = elim (Bool-cases (is_fit len b)) [
  | inl hit ↦ let f : fits p ≡ at_end r = rw hit at e in absurd (cc)
  | inr miss ↦
      let f : at_end p ≡ at_end r = rw miss at e in
      let same : p ≡ r = cc in
      rw (← same)
        (record { after = omega arith; ends = omega (arith, c.1); long = omega (arith, c.1, c.3) })
]
at_end-IsLast h len q p b (b' ∷ xs) r c e = elim (Bool-cases (is_fit len b)) [
  | inl hit ↦ let f : fits p ≡ at_end r = rw hit at e in absurd (cc)
  | inr miss ↦
      let i = at_end-IsLast h len p (p + b.size) b' xs r c.4 (rw miss at e) in
      record { after = omega (arith, i.after); ends = i.ends; long = i.long }
]

-- Headers in which only the last chunk and the new one behind it differ.
pub record IsAppended (h g : ℕ → Header) (len r start : ℕ) : Type 0 where
  pub kept : (a : ℕ) → a ≢ r → a ≢ start → g a ≡ h a
  pub last : g r ≡ record (h r) { next = start }
  pub new_used : (g start).allocated ≡ true
  pub new_length : (g start).length ≡ len
  pub new_next : (g start).next ≡ 0
  pub new_prev : (g start).prev ≡ r

pub appended-Chain :
    (h g : ℕ → Header) (len q p : ℕ) (b : Block) (xs : List Block) (r start : ℕ)
    → header_size ≤ len
    → Chain h p (b ∷ xs)
    → found_at len q p (b ∷ xs) ≡ at_end r
    → start ≡ end p (b ∷ xs)
    → IsAppended h g len r start
    → Chain g p (place len (b ∷ xs))
appended-Chain h g len q p b [] r start big c e s i = elim (Bool-cases (is_fit len b)) [
  | inl hit ↦ let f : fits p ≡ at_end r = rw hit at e in absurd (cc)
  | inr miss ↦
      let f : at_end p ≡ at_end r = rw miss at e in
      let same : p ≡ r = cc in
      let here : g p ≡ record (h p) { next = start } = rw same i.last in
      rw (miss, here)
        (
          c.0,
          c.1,
          s,
          c.3,
          (rw (← s) i.new_used, rw (← s) i.new_length, rw (← s) i.new_next, big, tt),
        )
]
appended-Chain h g len q p b (b' ∷ xs) r start big c e s i = elim (Bool-cases (is_fit len b)) [
  | inl hit ↦ let f : fits p ≡ at_end r = rw hit at e in absurd (cc)
  | inr miss ↦
      let rest : found_at len p (p + b.size) (b' ∷ xs) ≡ at_end r = rw miss at e in
      let l = at_end-IsLast h len p (p + b.size) b' xs r c.4 rest in
      let here : g p ≡ h p =
        i.kept p (omega (arith, l.after, c.3)) (omega (arith, s, l.ends, l.after, c.3)) in
      rw (miss, here)
        (
          c.0,
          c.1,
          c.2 ∙ link-place len (p + b.size) b' xs,
          c.3,
          appended-Chain h g len p (p + b.size) b' xs r start big c.4 rest s i,
        )
]

-- Without a fit the new block stands at the end of the list.
pub place-at_end :
    (len q p : ℕ) (xs : List Block) {r : ℕ}
    → found_at len q p xs ≡ at_end r
    → (placed_at len p xs ≡ end p xs) × (end p (place len xs) ≡ end p xs + len)
place-at_end len q p [] e = (refl, refl)
place-at_end len q p (b ∷ xs) {r} e = elim (Bool-cases (is_fit len b)) [
  | inl hit ↦ let f : fits p ≡ at_end r = rw hit at e in absurd (cc)
  | inr miss ↦ rw miss (place-at_end len p (p + b.size) xs (rw miss at e))
]

-- The links back.
pub appended-Backs :
    (h g : ℕ → Header) (len q p : ℕ) (b : Block) (xs : List Block) (r start : ℕ)
    → header_size ≤ len
    → Chain h p (b ∷ xs)
    → Backs h q p (b ∷ xs)
    → found_at len q p (b ∷ xs) ≡ at_end r
    → start ≡ end p (b ∷ xs)
    → IsAppended h g len r start
    → Backs g q p (place len (b ∷ xs))
appended-Backs h g len q p b [] r start big c d e s i = elim (Bool-cases (is_fit len b)) [
  | inl hit ↦ let f : fits p ≡ at_end r = rw hit at e in absurd (cc)
  | inr miss ↦
      let f : at_end p ≡ at_end r = rw miss at e in
      let same : p ≡ r = cc in
      let here : g p ≡ record (h p) { next = start } = rw same i.last in
      let new : (g start).prev ≡ p = rw same i.new_prev in rw (miss, here) (d.0, (rw (← s) new, tt))
]
appended-Backs h g len q p b (b' ∷ xs) r start big c d e s i = elim (Bool-cases (is_fit len b)) [
  | inl hit ↦ let f : fits p ≡ at_end r = rw hit at e in absurd (cc)
  | inr miss ↦
      let rest : found_at len p (p + b.size) (b' ∷ xs) ≡ at_end r = rw miss at e in
      let l = at_end-IsLast h len p (p + b.size) b' xs r c.4 rest in
      let here : g p ≡ h p =
        i.kept p (omega (arith, l.after, c.3)) (omega (arith, s, l.ends, l.after, c.3)) in
      rw (miss, here)
        (d.0, appended-Backs h g len p (p + b.size) b' xs r start big c.4 d.1 rest s i)
]
