-- ===== src/Printk/Numerals.antt =====
-- The numbers of src/kernel/debug/printk.c: `skip_atoi` and `number`.
use bit_simple_kernel.Prelude.{
  ℕ, zero, suc, ◌+◌, ◌-◌, ◌*◌, ◌/◌, ◌%◌, ◌^◌, ◌==◌, ◌&&◌, ◌||◌, not, ltb, leb, Bool, false,
  if◌then◌else◌, Option, none, some, List, [], ◌∷◌, ◌++◌, length,
}

-- The bits of `flags`.
pub record Flags : Type 0 where
  pub zeropad : Bool
  pub sign : Bool
  pub plus : Bool
  pub space : Bool
  pub left : Bool
  pub special : Bool
  pub small : Bool

abbrev pub no_flags : Flags
no_flags = record {
  zeropad = false;
  sign = false;
  plus = false;
  space = false;
  left = false;
  special = false;
  small = false;
}

-- `is_digit`.
abbrev pub is_digit : ℕ → Bool
is_digit c = leb b'0' c && leb c b'9'

-- The code's `int` overflows from 2^31 on.
unfoldable pub skip_atoi : ℕ → List ℕ → ℕ × List ℕ
skip_atoi i [] = (i, [])
skip_atoi i (c ∷ s) =
    let rest = skip_atoi (i * 10 + c - b'0') s in if is_digit c then rest else (i, c ∷ s)

-- `n` times the character `c`.
unfoldable pub replicate : ℕ → ℕ → List ℕ
replicate zero c = []
replicate (suc n) c = c ∷ replicate n c

-- `digits[d]`.
unfoldable pub digit : Bool → ℕ → ℕ
digit small d = if ltb d 10 then b'0' + d else (if small then b'a' else b'A') + (d - 10)

-- `while (num != 0) tmp[i++] = digits[do_div(num, base)]`, with the later digits first.
unfoldable pub put_digits : ℕ → Bool → ℕ → ℕ → List ℕ → List ℕ
put_digits zero small base num tmp = tmp
put_digits (suc fuel) small base num tmp =
    let rest = put_digits fuel small base (num / base) (digit small (num % base) ∷ tmp) in
    if num == 0 then tmp else rest

-- A word has at most 32 digits.
abbrev pub digit_fuel : ℕ
digit_fuel = 32

-- `num < 0` on a number that is printed as signed.
abbrev pub is_negative : Flags → ℕ → Bool
is_negative type num = type.sign && leb (2 ^ 31) num

-- The sign character, if there is one.
unfoldable pub sign_of : Flags → ℕ → List ℕ
sign_of type num =
    if is_negative type num
    then b'-' ∷ []
    else if type.plus
    then b'+' ∷ []
    else if type.space
    then b' ' ∷ []
    else []

-- `-num` where that is printed.
unfoldable pub magnitude : Flags → ℕ → ℕ
magnitude type num = if is_negative type num then (2 ^ 32 - num) % 2 ^ 32 else num

-- The prefix of the base.
unfoldable pub prefix : Flags → ℕ → List ℕ
prefix type base =
    if not type.special
    then []
    else if base == 8
    then b'0' ∷ []
    else if base == 16
    then b'0' ∷ digit type.small 33 ∷ []
    else []

-- The characters of `tmp`, the first one that is printed first.
unfoldable pub number_digits : Flags → ℕ → ℕ → List ℕ
number_digits type base num =
    if num == 0 then b'0' ∷ [] else put_digits digit_fuel type.small base num []

-- The loops around the sign, the prefix and the digits. The code compares `size` only with 0, after
-- each of the subtractions, so a negative one counts as 0; and `while (size-- > 0)` writes `size`
-- characters and leaves nothing for a later loop.
unfoldable pub fill : Bool → Bool → ℕ → List ℕ → List ℕ → List ℕ
fill left zeropad size head body =
    let size₁ = if not (zeropad || left) then 0 else size in
    let size₂ = if not left then 0 else size₁ in
    let c = if zeropad then b'0' else b' ' in
    replicate (size - size₁) b' '
    ++ head
    ++ replicate (size₁ - size₂) c
    ++ body
    ++ replicate size₂ b' '

-- A null pointer is `none`.
unfoldable pub number : ℕ → ℕ → ℕ → ℕ → Flags → Option (List ℕ)
number num base size precision type =
    let zeropad = type.zeropad && not type.left in
    let sign = sign_of type num in
    let tmp = number_digits type base (magnitude type num) in
    let i = length tmp in
    let precision₁ = if ltb precision i then i else precision in
    let size₁ = size - length sign - length (prefix type base) - precision₁ in
    if ltb base 2 || ltb 36 base
    then none
    else some (
        fill type.left zeropad size₁ (sign ++ prefix type base)
          (replicate (precision₁ - i) b'0' ++ tmp))
