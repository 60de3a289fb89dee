-- ===== src/Printk/Number.antt =====
-- The text that `number` of src/kernel/debug/printk.c writes, and the number that it spells.
use native.Mathlib.Nat.{pow-suc, div-lt_iff_lt-mul, mod-add-div', mul-le-mul_left, mod-lt}
use mathlib.Core.List.{append_assoc, append-nil}
use bit_simple_kernel.Prelude.{
  ◌⊎◌, ℕ, zero, suc, ◌+◌, ◌-◌, ◌*◌, ◌/◌, ◌%◌, ◌^◌, ◌≤◌, ◌<◌, ◌==◌, ◌&&◌, ◌||◌, not, ltb, leb, Bool,
  true, false, ◌≡◌, refl, ap, ◌∙◌, arith, if◌then◌else◌, some, List, [], ◌∷◌, ◌++◌, length,
  length-append, Bool-cases, inl, inr,
}
use bit_simple_kernel.Printk.{
  Flags, replicate, digit, put_digits, sign_of, magnitude, prefix, number_digits, fill, number,
}

-- The value of a digit character.
unfoldable pub char_value : ℕ → ℕ
char_value c = if leb c b'9' then c - b'0' else if ltb c b'a' then c - b'A' + 10 else c - b'a' + 10

-- The number that digits spell in a base, behind `n`.
unfoldable pub read : ℕ → ℕ → List ℕ → ℕ
read base n [] = n
read base n (c ∷ cs) = read base (n * base + char_value c) cs

char_value-digit : (small : Bool) (d : ℕ) → d < 36 → char_value (digit small d) ≡ d
unfolding char_value digit
char_value-digit small d h = ground arith

quotient_small : (base num fuel : ℕ) → 2 ≤ base → num < 2 ^ suc fuel → num / base < 2 ^ fuel
quotient_small base num fuel h k =
    let twice : 2 ^ fuel * 2 ≤ 2 ^ fuel * base = mul-le-mul_left (2 ^ fuel) h in
    let positive : 0 < base = omega arith in
    (div-lt_iff_lt-mul positive).1 (omega (arith, twice, pow-suc 2 fuel))

read-put_digits :
    (small : Bool) (base fuel num : ℕ) (tmp : List ℕ)
    → 2 ≤ base
    → base ≤ 36
    → num < 2 ^ fuel
    → read base 0 (put_digits fuel small base num tmp) ≡ read base num tmp
unfolding read put_digits
read-put_digits small base zero num tmp h k l =
    let none_left : num ≡ 0 = omega arith in rw none_left refl
read-put_digits small base (suc fuel) num tmp h k l =
    let last = num % base in
    let positive : 0 < base = omega arith in
    let below : last < 36 = omega (arith, mod-lt num positive) in
    let more =
      read-put_digits small base fuel (num / base) (digit small last ∷ tmp) h k
        (quotient_small base num fuel h l) in
    let whole : num / base * base + char_value (digit small last) ≡ num =
      rw (char_value-digit small last below) (omega (arith, mod-add-div' num base)) in
    let reached = more ∙ ap (λ (n : ℕ). read base n tmp) whole in
    elim (Bool-cases (num == 0)) [
      | inl e ↦ let nothing : num ≡ 0 = ground (arith, e) in rw (e, nothing) refl
      | inr e ↦ rw e reached
    ]

pub length-put_digits :
    (small : Bool) (base fuel num : ℕ) (tmp : List ℕ)
    → length (put_digits fuel small base num tmp) ≤ fuel + length tmp
unfolding put_digits
length-put_digits small base zero num tmp = omega arith
length-put_digits small base (suc fuel) num tmp =
    ground (arith, length-put_digits small base fuel (num / base) (digit small (num % base) ∷ tmp))

read-replicate : (base n : ℕ) (cs : List ℕ) → read base 0 (replicate n b'0' ++ cs) ≡ read base 0 cs
unfolding read replicate char_value
read-replicate base zero cs = refl
read-replicate base (suc n) cs =
    let still_zero : 0 * base + 0 ≡ 0 = omega arith in
    ap (λ (k : ℕ). read base k (replicate n b'0' ++ cs)) still_zero ∙ read-replicate base n cs

pub length-replicate : (n c : ℕ) → length (replicate n c) ≡ n
unfolding replicate
length-replicate zero c = refl
length-replicate (suc n) c = omega (arith, length-replicate n c)

-- The digits of a word: at least one and at most 32, and they spell it.
record IsSpelled (base num : ℕ) (ds : List ℕ) : Type 0 where
  pub spells : read base 0 ds ≡ num
  pub some_digit : 0 < length ds
  pub few : length ds ≤ 32

read_zero : (base : ℕ) → read base 0 (b'0' ∷ []) ≡ 0
unfolding read char_value
read_zero base = omega arith

length-put_digits-ge :
    (small : Bool) (base fuel num : ℕ) (tmp : List ℕ)
    → length tmp ≤ length (put_digits fuel small base num tmp)
unfolding put_digits
length-put_digits-ge small base zero num tmp = omega arith
length-put_digits-ge small base (suc fuel) num tmp =
    ground
      (arith, length-put_digits-ge small base fuel (num / base) (digit small (num % base) ∷ tmp))

put_digits-nonempty :
    (small : Bool) (base fuel num : ℕ) (tmp : List ℕ)
    → (num == 0) ≡ false
    → 0 < length (put_digits (suc fuel) small base num tmp)
unfolding put_digits
put_digits-nonempty small base fuel num tmp e = rw e (
    omega
      (arith, length-put_digits-ge small base fuel (num / base) (digit small (num % base) ∷ tmp)))

digits-IsSpelled :
    (type : Flags) (base num : ℕ)
    → 2 ≤ base
    → base ≤ 36
    → num < 2 ^ 32
    → IsSpelled base num (number_digits type base num)
unfolding number_digits read
digits-IsSpelled type base num h k l = elim (Bool-cases (num == 0)) [
  | inl e ↦
      let nothing : num ≡ 0 = ground (arith, e) in
      rw (e, nothing)
        (record { spells = read_zero base; some_digit = omega arith; few = omega arith })
  | inr e ↦ rw e (record {
    spells = read-put_digits type.small base 32 num [] h k l;
    some_digit = put_digits-nonempty type.small base 31 num [] e;
    few = omega (arith, length-put_digits type.small base 32 num []);
  })
]

abbrev larger : ℕ → ℕ → ℕ
larger a b = if ltb a b then b else a

-- The sign of the word `num` read as a signed number, and its distance from 0: a minus in front of
-- a negative one, else the plus or the blank that the flags ask for.
abbrev pub expected_sign : Flags → ℕ → List ℕ
expected_sign type num =
    if type.sign && leb (2 ^ 31) num
    then b'-' ∷ []
    else if type.plus
    then b'+' ∷ []
    else if type.space
    then b' ' ∷ []
    else []

abbrev pub expected_magnitude : Flags → ℕ → ℕ
expected_magnitude type num = if type.sign && leb (2 ^ 31) num then 2 ^ 32 - num else num

-- `0` in front of an octal number, `0x` or `0X` in front of a hexadecimal one, if asked for.
abbrev pub expected_prefix : Flags → ℕ → List ℕ
expected_prefix type base =
    if type.special && base == 8
    then b'0' ∷ []
    else if type.special && base == 16
    then b'0' ∷ (if type.small then b'x' else b'X') ∷ []
    else []

sign_of-expected : (type : Flags) (num : ℕ) → sign_of type num ≡ expected_sign type num
unfolding sign_of
sign_of-expected type num = refl

magnitude-expected :
    (type : Flags) (num : ℕ) → num < 2 ^ 32 → magnitude type num ≡ expected_magnitude type num
unfolding magnitude
magnitude-expected type num h = ground arith

prefix-expected : (type : Flags) (base : ℕ) → prefix type base ≡ expected_prefix type base
unfolding prefix digit
prefix-expected type base = elim (Bool-cases type.special) [
  | inl e ↦ elim (Bool-cases type.small) [
    | inl small ↦ rw (e, small) refl
    | inr capital ↦ rw (e, capital) refl
  ]
  | inr e ↦ rw e refl
]

-- What `number` writes: blanks on one side at most, the sign, the prefix, zeros and digits.
pub record IsPrinted (type : Flags) (base num size precision : ℕ) (text : List ℕ) : Type 0 where
  pub left_blanks : ℕ
  pub digits : List ℕ
  pub right_blanks : ℕ
  pub text_is :
      text
      ≡ replicate left_blanks b' '
        ++ (expected_sign type num ++ expected_prefix type base)
        ++ digits
        ++ replicate right_blanks b' '
  pub spells : read base 0 digits ≡ expected_magnitude type num
  pub at_least : larger precision 1 ≤ length digits
  pub fits_tmp : length (number_digits type base (expected_magnitude type num)) ≤ 36
  pub fills : size ≤ length text
  pub one_side : (left_blanks ≡ 0) ⊎ (right_blanks ≡ 0)
  pub no_wider : (0 < left_blanks + right_blanks) → length text ≡ size

-- Where the room goes: to zeros, or to blanks on one side.
record IsFilled (size : ℕ) (head body text : List ℕ) : Type 0 where
  pub left_blanks : ℕ
  pub zeros : ℕ
  pub right_blanks : ℕ
  pub text_is :
      text
      ≡ replicate left_blanks b' '
        ++ head
        ++ (replicate zeros b'0' ++ body)
        ++ replicate right_blanks b' '
  pub all_room : left_blanks + zeros + right_blanks ≡ size
  pub one_side : (left_blanks ≡ 0) ⊎ (right_blanks ≡ 0)

fill-IsFilled :
    (left zeropad : Bool) (size : ℕ) (head body : List ℕ)
    → IsFilled size head body (fill left (zeropad && not left) size head body)
unfolding fill replicate
fill-IsFilled true true size head body =
    let none_left : size - size ≡ 0 = omega arith in
    record {
      left_blanks = 0;
      zeros = 0;
      right_blanks = size;
      text_is = rw (none_left, append-nil) refl;
      all_room = omega arith;
      one_side = inl refl;
    }
fill-IsFilled true false size head body =
    let none_left : size - size ≡ 0 = omega arith in
    record {
      left_blanks = 0;
      zeros = 0;
      right_blanks = size;
      text_is = rw (none_left, append-nil) refl;
      all_room = omega arith;
      one_side = inl refl;
    }
fill-IsFilled false true size head body =
    let none_left : size - size ≡ 0 = omega arith in
    let all_left : size - 0 ≡ size = omega arith in
    record {
      left_blanks = 0;
      zeros = size;
      right_blanks = 0;
      text_is = rw (none_left, all_left, append_assoc head (replicate size b'0') body) refl;
      all_room = omega arith;
      one_side = inl refl;
    }
fill-IsFilled false false size head body =
    let all_left : size - 0 ≡ size = omega arith in
    record {
      left_blanks = size;
      zeros = 0;
      right_blanks = 0;
      text_is = rw (all_left, append-nil (replicate size b' ' ++ head)) refl;
      all_room = omega arith;
      one_side = inr refl;
    }

module _ (flags : Flags) (base num size precision : ℕ) (low : 2 ≤ base) (high : base ≤ 36)
    (word : num < 2 ^ 32) where
  abbrev tmp : List ℕ
  tmp = number_digits flags base (magnitude flags num)

  abbrev written : ℕ
  written = larger precision (length tmp)

  abbrev room : ℕ
  room = size - length (sign_of flags num) - length (prefix flags base) - written

  abbrev digits_with : ℕ → List ℕ
  digits_with z = replicate z b'0' ++ (replicate (written - length tmp) b'0' ++ tmp)

  abbrev layout : ℕ → ℕ → ℕ → List ℕ
  layout l z r =
      replicate l b' '
      ++ (sign_of flags num ++ prefix flags base)
      ++ digits_with z
      ++ replicate r b' '

  magnitude_word : magnitude flags num < 2 ^ 32
  unfolding magnitude
  magnitude_word = ground arith

  spelled : IsSpelled base (magnitude flags num) tmp
  spelled = digits-IsSpelled flags base (magnitude flags num) low high magnitude_word

  length-digits_with : (z : ℕ) → length (digits_with z) ≡ z + written
  length-digits_with z = simp (length-append, length-replicate) (ground arith)

  length-layout :
      (l z r : ℕ)
      → length (layout l z r)
        ≡ l + length (sign_of flags num) + length (prefix flags base) + z + written + r
  length-layout l z r = simp (length-append, length-replicate) (ground arith)

  layout-IsPrinted :
      (l z r : ℕ)
      → l + z + r ≡ room
      → (l ≡ 0) ⊎ (r ≡ 0)
      → IsPrinted flags base num size precision (layout l z r)
  layout-IsPrinted l z r sum side = record {
    left_blanks = l;
    digits = digits_with z;
    right_blanks = r;
    text_is = rw (← sign_of-expected flags num, ← prefix-expected flags base) refl;
    spells =
        read-replicate base z (replicate (written - length tmp) b'0' ++ tmp)
        ∙ read-replicate base (written - length tmp) tmp
        ∙ spelled.spells
        ∙ magnitude-expected flags num word;
    at_least = ground (arith, length-digits_with z, spelled.some_digit);
    fits_tmp = rw (← magnitude-expected flags num word) (omega (arith, spelled.few));
    fills = omega (arith, length-layout l z r, sum);
    one_side = side;
    no_wider = λ some_blank. omega (arith, length-layout l z r, sum);
  }

  is_base : (ltb base 2 || ltb 36 base) ≡ false
  is_base = ground arith

  -- For a base from 2 to 36 `number` writes blanks on one side at most, the sign, the prefix, and
  -- digits, with leading zeros, that spell the magnitude of the number in the base. There are at
  -- least as many of them as the precision says, and one at least. The text is as long as the width
  -- says, or longer and without blanks. The buffer `tmp` of 36 characters is not overrun.
  pub number-IsPrinted :
      (text : List ℕ) × (number num base size precision flags ≡ some text)
      × IsPrinted flags base num size precision text
  unfolding number
  number-IsPrinted =
      let body = replicate (written - length tmp) b'0' ++ tmp in
      let f =
        fill-IsFilled flags.left flags.zeropad room (sign_of flags num ++ prefix flags base) body in
      (
        layout f.left_blanks f.zeros f.right_blanks,
        rw (is_base, f.text_is) refl,
        layout-IsPrinted f.left_blanks f.zeros f.right_blanks f.all_room f.one_side,
      )
