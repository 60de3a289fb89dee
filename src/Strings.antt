-- ===== src/Strings.antt =====
-- Strings and blocks of bytes: src/libs/mstring.c. Memory is a map from addresses to bytes, and the
-- loops over a text run on fuel.
pub mod Texts
pub mod Order
pub mod Copy
mod Tests
use bit_simple_kernel.Prelude.{
  ℕ, zero, suc, ◌+◌, ◌%◌, ◌^◌, ◌==◌, ◌&&◌, not, Bool, ltb, write, if◌then◌else◌, Option, none, some,
}

-- The results -1, 0 and 1 of `strcmp`.
pub data Sign : Type 0 where
  less equal greater : Sign

-- `a < b` on `char`, which is signed: a byte from 128 on is negative.
unfoldable pub char_ltb : ℕ → ℕ → Bool
char_ltb a b = ltb ((a + 2 ^ 7) % 2 ^ 8) ((b + 2 ^ 7) % 2 ^ 8)

-- The loop of `strcmp` at index `i`, and the tests behind it.
unfoldable pub strcmp_from : ℕ → ℕ → ℕ → ℕ → (ℕ → ℕ) → Option Sign
strcmp_from zero lhs rhs i m = none
strcmp_from (suc fuel) lhs rhs i m =
    let a = m (lhs + i) in
    let b = m (rhs + i) in
    let rest = strcmp_from fuel lhs rhs (i + 1) m in
    if not (a == 0) && not (b == 0)
    then if a == b
      then rest
      else if char_ltb b a
      then some greater
      else if char_ltb a b
      then some less
      else rest
    else if not (a == 0)
    then some greater
    else if not (b == 0)
    then some less
    else some equal

abbrev pub strcmp : ℕ → ℕ → ℕ → (ℕ → ℕ) → Option Sign
strcmp fuel lhs rhs m = strcmp_from fuel lhs rhs 0 m

-- The loop of `strlen` at `src`, with `cnt` characters before it.
unfoldable pub strlen_from : ℕ → ℕ → ℕ → (ℕ → ℕ) → Option ℕ
strlen_from zero src cnt m = none
strlen_from (suc fuel) src cnt m =
    let rest = strlen_from fuel (src + 1) (cnt + 1) m in if m src == 0 then some cnt else rest

abbrev pub strlen : ℕ → ℕ → (ℕ → ℕ) → Option ℕ
strlen fuel src m = strlen_from fuel src 0 m

unfoldable pub memcpy : ℕ → ℕ → ℕ → (ℕ → ℕ) → ℕ → ℕ
memcpy dest src zero m = m
memcpy dest src (suc len) m = memcpy (dest + 1) (src + 1) len (write m dest (m src))

unfoldable pub memset : ℕ → ℕ → ℕ → (ℕ → ℕ) → ℕ → ℕ
memset dest val zero m = m
memset dest val (suc len) m = memset (dest + 1) val len (write m dest val)

-- A value that a loop has returned, for the code behind it.
abbrev returned : {A B : Type 0} → Option A → (A → Option B) → Option B
returned none k = none
returned (some a) k = k a

-- `strcat`; the terminating zero of `src` is not copied.
unfoldable pub strcat : ℕ → ℕ → ℕ → (ℕ → ℕ) → Option (ℕ → ℕ)
strcat fuel dest src m =
    returned (strlen fuel dest m)
      λ l_len. returned (strlen fuel src m) λ r_len. some (memcpy (dest + l_len) src r_len m)
