-- ===== src/Prelude/Bits.antt =====
-- `&` and `|` at variables: they act on the digits above and below any position separately, so a
-- mask is a remainder and the union of disjoint fields is a sum.
use Prim.Native.Nat.{min, max, digits, bitwise, bit_and-bitwise, bit_or-bitwise}
use native.Mathlib.Nat.{pow-suc, one-le-pow}
use bit_simple_kernel.Prelude.{
  ℕ, zero, suc, ◌+◌, ◌-◌, ◌*◌, ◌/◌, ◌%◌, ◌^◌, ◌≤◌, ◌<◌, bit_and, bit_or, ◌≡◌, ◌∙◌, refl, ap, arith,
}

-- The fuel of the digit recursion does not matter once it covers the first operand.
module _ (z : ℕ → ℕ) (f : ℕ → ℕ → ℕ) where
  any_fuel : (a b n m : ℕ) → a ≤ n → a ≤ m → digits z f n a b ≡ digits z f m a b
  any_fuel zero b zero zero h k = refl
  any_fuel zero b zero (suc m) h k = refl
  any_fuel zero b (suc n) zero h k = refl
  any_fuel zero b (suc n) (suc m) h k = refl
  any_fuel (suc a) b zero m h k = absurd (omega arith)
  any_fuel (suc a) b (suc n) zero h k = absurd (omega arith)
  any_fuel (suc a) b (suc n) (suc m) h k =
      ap (λ (t : ℕ). t * 2 + f (suc a % 2) (b % 2))
        (any_fuel (suc a / 2) (b / 2) n m (omega arith) (omega arith))

  lowest_digit :
      (a b : ℕ)
      → bitwise z f (suc a) b ≡ bitwise z f (suc a / 2) (b / 2) * 2 + f (suc a % 2) (b % 2)
  lowest_digit a b =
      ap (λ (t : ℕ). t * 2 + f (suc a % 2) (b % 2))
        (any_fuel (suc a / 2) (b / 2) a (suc a / 2) (omega arith) (omega arith))

and_digit : (a b : ℕ) → bit_and a b ≡ bit_and (a / 2) (b / 2) * 2 + min (a % 2) (b % 2)
and_digit zero b = simp bit_and-bitwise (omega arith)
and_digit (suc a) b = simp bit_and-bitwise (lowest_digit (λ _. 0) min a b)

or_digit : (a b : ℕ) → bit_or a b ≡ bit_or (a / 2) (b / 2) * 2 + max (a % 2) (b % 2)
or_digit zero b = simp bit_or-bitwise (omega arith)
or_digit (suc a) b = simp bit_or-bitwise (lowest_digit (λ y. y) max a b)

double : (q k r : ℕ) → q * 2 ^ suc k + r ≡ 2 * (q * 2 ^ k) + r
double q k r = omega (arith, ap (λ (t : ℕ). q * t) (pow-suc 2 k))

halve : (q k r : ℕ) → (q * 2 ^ suc k + r) / 2 ≡ q * 2 ^ k + r / 2
halve q k r = rw (double q k r) (omega arith)

parity : (q k r : ℕ) → (q * 2 ^ suc k + r) % 2 ≡ r % 2
parity q k r = rw (double q k r) (omega arith)

-- Both operations act on the digits from `k` on and on those below `k`.
pub bit_and_split :
    (k a b c d : ℕ)
    → b < 2 ^ k
    → d < 2 ^ k
    → bit_and (a * 2 ^ k + b) (c * 2 ^ k + d) ≡ bit_and a c * 2 ^ k + bit_and b d
bit_and_split zero a zero c zero h i = ground arith
bit_and_split zero a (suc b) c d h i = absurd (omega arith)
bit_and_split zero a zero c (suc d) h i = absurd (omega arith)
bit_and_split (suc k) a b c d h i =
    and_digit (a * 2 ^ suc k + b) (c * 2 ^ suc k + d)
    ∙ rw (halve a k b, halve c k d, parity a k b, parity c k d)
        (omega (
          arith,
          pow-suc 2 k,
          bit_and_split k a (b / 2) c (d / 2) (omega (arith, pow-suc 2 k))
              (omega (arith, pow-suc 2 k)),
          double (bit_and a c) k 0,
          and_digit b d,
        ))

pub bit_or_split :
    (k a b c d : ℕ)
    → b < 2 ^ k
    → d < 2 ^ k
    → bit_or (a * 2 ^ k + b) (c * 2 ^ k + d) ≡ bit_or a c * 2 ^ k + bit_or b d
bit_or_split zero a zero c zero h i = ground arith
bit_or_split zero a (suc b) c d h i = absurd (omega arith)
bit_or_split zero a zero c (suc d) h i = absurd (omega arith)
bit_or_split (suc k) a b c d h i =
    or_digit (a * 2 ^ suc k + b) (c * 2 ^ suc k + d)
    ∙ rw (halve a k b, halve c k d, parity a k b, parity c k d)
        (omega (
          arith,
          pow-suc 2 k,
          bit_or_split k a (b / 2) c (d / 2) (omega (arith, pow-suc 2 k))
              (omega (arith, pow-suc 2 k)),
          double (bit_or a c) k 0,
          or_digit b d,
        ))

zero-bit_and : (a : ℕ) → bit_and 0 a ≡ 0
zero-bit_and a = bit_and-bitwise 0 a

zero-bit_or : (a : ℕ) → bit_or 0 a ≡ a
zero-bit_or a = bit_or-bitwise 0 a

bit_and-zero : (n a : ℕ) → a ≤ n → bit_and a 0 ≡ 0
bit_and-zero n zero h = zero-bit_and 0
bit_and-zero zero (suc a) h = absurd (omega arith)
bit_and-zero (suc n) (suc a) h =
    omega (arith, and_digit (suc a) 0, bit_and-zero n (suc a / 2) (omega arith))

bit_or-zero : (n a : ℕ) → a ≤ n → bit_or a 0 ≡ a
bit_or-zero n zero h = zero-bit_or 0
bit_or-zero zero (suc a) h = absurd (omega arith)
bit_or-zero (suc n) (suc a) h =
    omega (arith, or_digit (suc a) 0, bit_or-zero n (suc a / 2) (omega arith))

ones_half : (k : ℕ) → (2 ^ suc k - 1) / 2 ≡ 2 ^ k - 1
ones_half k = omega (arith, pow-suc 2 k, one-le-pow k 2)

bit_and_ones : (k b : ℕ) → b < 2 ^ k → bit_and b (2 ^ k - 1) ≡ b
bit_and_ones zero zero h = zero-bit_and 0
bit_and_ones zero (suc b) h = absurd (omega arith)
bit_and_ones (suc k) b h =
    and_digit b (2 ^ suc k - 1)
    ∙ rw (ones_half k) (
        omega
          (arith, one-le-pow k 2, pow-suc 2 k, bit_and_ones k (b / 2) (omega (arith, pow-suc 2 k))))

-- `a & ((1 << k) - 1)`.
pub bit_and_low : (k a : ℕ) → bit_and a (2 ^ k - 1) ≡ a % 2 ^ k
bit_and_low k a = ground (
  arith,
  one-le-pow k 2,
  bit_and_split k (a / 2 ^ k) (a % 2 ^ k) 0 (2 ^ k - 1),
  bit_and-zero (a / 2 ^ k) (a / 2 ^ k),
  bit_and_ones k (a % 2 ^ k),
)

-- `a & (1 << k)`.
pub bit_and_bit : (k a : ℕ) → bit_and a (2 ^ k) ≡ a / 2 ^ k % 2 * 2 ^ k
bit_and_bit k a = ground (
  arith,
  one-le-pow k 2,
  bit_and_split k (a / 2 ^ k) (a % 2 ^ k) 1 0,
  bit_and-zero (a % 2 ^ k) (a % 2 ^ k),
  bit_and_low 1 (a / 2 ^ k),
)

-- `(q << k) | r` for `r` of `k` bits.
pub bit_or_fields : (k q r : ℕ) → r < 2 ^ k → bit_or (q * 2 ^ k) r ≡ q * 2 ^ k + r
bit_or_fields k q r h =
    ground (arith, one-le-pow k 2, bit_or_split k q 0 0 r, bit_or-zero q q, zero-bit_or r)

-- `a & mask` where the mask clears the `k` low bits of a word of `k + n` bits.
pub bit_and_high :
    (k n a : ℕ) → a / 2 ^ k < 2 ^ n → bit_and a ((2 ^ n - 1) * 2 ^ k) ≡ a / 2 ^ k * 2 ^ k
bit_and_high k n a h = ground (
  arith,
  one-le-pow k 2,
  bit_and_split k (a / 2 ^ k) (a % 2 ^ k) (2 ^ n - 1) 0,
  bit_and-zero (a % 2 ^ k) (a % 2 ^ k),
  bit_and_ones n (a / 2 ^ k),
)

-- The same with the low field first.
pub bit_or_fields_swapped : (k q r : ℕ) → r < 2 ^ k → bit_or r (q * 2 ^ k) ≡ q * 2 ^ k + r
bit_or_fields_swapped k q r h =
    ground (arith, one-le-pow k 2, bit_or_split k 0 r q 0, bit_or-zero r r, zero-bit_or q)

pub bit_or_zero : (a : ℕ) → bit_or a 0 ≡ a
bit_or_zero a = bit_or-zero a a (omega arith)
