-- ===== src/Strings/Order.antt =====
-- The order that `strcmp` of src/libs/mstring.c decides.
use bit_simple_kernel.Prelude.{
  ℕ, zero, suc, ◌+◌, ◌<◌, Bool-cases, ◌⊎◌, inl, inr, ◌==◌, ◌≡◌, ◌≢◌, ◌∙◌, Bool, ltb, leb, refl, ap₂,
  arith, List, [], ◌∷◌, length, if◌then◌else◌, some, true, false, ◌↔◌,
}
use bit_simple_kernel.Strings.{Sign, less, equal, greater, char_ltb, strcmp_from, strcmp}
use bit_simple_kernel.Strings.Texts.{IsText}

-- The order of the numbers that two bytes stand for in two's complement: a byte from 128 on is
-- negative.
abbrev pub signed_ltb : ℕ → ℕ → Bool
signed_ltb x y =
    if leb 128 x then if leb 128 y then ltb x y else true else if leb 128 y then false else ltb x y

char_ltb-signed : (x y : ℕ) → x < 256 → y < 256 → char_ltb x y ≡ signed_ltb x y
unfolding char_ltb
char_ltb-signed x y h k = ground arith

-- The lexicographic order of two lists of signed characters.
unfoldable pub compare : List ℕ → List ℕ → Sign
compare [] [] = equal
compare [] (y ∷ ys) = less
compare (x ∷ xs) [] = greater
compare (x ∷ xs) (y ∷ ys) =
    let rest = compare xs ys in if x == y then rest else if signed_ltb x y then less else greater

-- Two different characters are in order one way and not the other.
char_total :
    (x y : ℕ)
    → x < 256
    → y < 256
    → x ≢ y
    → ((char_ltb x y ≡ true) × (char_ltb y x ≡ false) × (signed_ltb x y ≡ true))
      ⊎ ((char_ltb x y ≡ false) × (char_ltb y x ≡ true) × (signed_ltb x y ≡ false))
char_total x y h k ne =
    let forth = char_ltb-signed x y h k in
    let back = char_ltb-signed y x k h in
    elim (Bool-cases (signed_ltb x y)) [
      | inl lt ↦ inl (forth ∙ lt, back ∙ ground (arith, lt), lt)
      | inr ge ↦ inr (forth ∙ ge, back ∙ ground (arith, ge, ne), ge)
    ]

strcmp_from-compare :
    (m : ℕ → ℕ) (fuel l r i : ℕ) (xs ys : List ℕ)
    → length xs < fuel
    → IsText m (l + i) xs
    → IsText m (r + i) ys
    → strcmp_from fuel l r i m ≡ some (compare xs ys)
unfolding strcmp_from compare
strcmp_from-compare m zero l r i xs ys h t u = absurd (omega arith)
strcmp_from-compare m (suc fuel) l r i [] [] h t u = rw (t, u) refl
strcmp_from-compare m (suc fuel) l r i [] (y ∷ ys) h t u =
    let more : (y == 0) ≡ false = ground (arith, u.1) in rw (t, u.0, more) refl
strcmp_from-compare m (suc fuel) l r i (x ∷ xs) [] h t u =
    let more : (x == 0) ≡ false = ground (arith, t.1) in rw (t.0, u, more) refl
strcmp_from-compare m (suc fuel) l r i (x ∷ xs) (y ∷ ys) h t u =
    let x_more : (x == 0) ≡ false = ground (arith, t.1) in
    let y_more : (y == 0) ≡ false = ground (arith, u.1) in
    let step : (a : ℕ) → a + (i + 1) ≡ a + i + 1 = λ a. omega arith in
    let later =
      strcmp_from-compare m fuel l r (i + 1) xs ys (omega arith) (rw (step l) t.3)
        (rw (step r) u.3) in
    rw (t.0, u.0, x_more, y_more)
      (elim (Bool-cases (x == y)) [
        | inl same ↦ rw same later
        | inr differ ↦ rw differ (elim (char_total x y t.2 u.2 (ground (arith, differ))) [
          | inl o ↦ rw (o.0, o.1, o.2) refl
          | inr o ↦ rw (o.0, o.1, o.2) refl
        ])
      ])

compare_refl : (xs : List ℕ) → compare xs xs ≡ equal
unfolding compare
compare_refl [] = refl
compare_refl (x ∷ xs) = let same : (x == x) ≡ true = ground arith in rw same (compare_refl xs)

equal-compare : (xs ys : List ℕ) → compare xs ys ≡ equal → xs ≡ ys
unfolding compare
equal-compare [] [] = λ e. refl
equal-compare [] (y ∷ ys) = λ e. cc
equal-compare (x ∷ xs) [] = λ e. cc
equal-compare (x ∷ xs) (y ∷ ys) = elim (Bool-cases (x == y)) [
  | inl same ↦ rw same (λ e. ap₂ ◌∷◌ (ground (arith, same)) (equal-compare xs ys e))
  | inr differ ↦ elim (Bool-cases (signed_ltb x y)) [
    | inl o ↦ rw (differ, o) (λ e. cc)
    | inr o ↦ rw (differ, o) (λ e. cc)
  ]
]

-- `strcmp` on two texts returns, with more fuel than the first has characters, and gives their
-- lexicographic order by signed characters. So it is 0 exactly for equal texts.
pub strcmp-compare :
    (m : ℕ → ℕ) (fuel l r : ℕ) (xs ys : List ℕ)
    → length xs < fuel
    → IsText m l xs
    → IsText m r ys
    → (strcmp fuel l r m ≡ some (compare xs ys)) × ((compare xs ys ≡ equal) ↔ (xs ≡ ys))
strcmp-compare m fuel l r xs ys h t u =
    let start : (a : ℕ) → a + 0 ≡ a = λ a. omega arith in
    (
      strcmp_from-compare m fuel l r 0 xs ys h (rw (start l) t) (rw (start r) u),
      (equal-compare xs ys, λ e. rw e (compare_refl ys)),
    )
