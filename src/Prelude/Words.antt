-- ===== src/Prelude/Words.antt =====
-- Casts to the fixed widths of C, and arrays as functions of the index.
use Prim.Native.Nat.{ℕ, ◌-◌, ◌+◌, ◌%◌, ◌/◌, ◌*◌, ◌^◌}
use mathlib.Core.Path.{◌≡◌}
use mathlib.Core.Logic.{◌≢◌}
use native.Mathlib.Omega.{arith}
use bit_simple_kernel.Prelude.Tests.{◌==◌, if◌then◌else◌}

abbrev pub u8 : ℕ → ℕ
u8 n = n % 2 ^ 8

abbrev pub u16 : ℕ → ℕ
u16 n = n % 2 ^ 16

abbrev pub u32 : ℕ → ℕ
u32 n = n % 2 ^ 32

-- `a - b` on `uint32_t`, for operands in range.
abbrev pub sub32 : ℕ → ℕ → ℕ
sub32 a b = (a + 2 ^ 32 - b) % 2 ^ 32

abbrev pub shr : ℕ → ℕ → ℕ
shr x k = x / 2 ^ k

abbrev pub shl : ℕ → ℕ → ℕ
shl x k = x * 2 ^ k

-- The array after `a[i] = v`.
unfoldable pub write {ℓ} : {A : Type ℓ} → (ℕ → A) → ℕ → A → ℕ → A
write a i v j = if j == i then v else a j

pub write_self {ℓ} : {A : Type ℓ} (a : ℕ → A) (i : ℕ) (v : A) → write a i v i ≡ v
unfolding write
write_self a i v = ground arith

pub write_ne {ℓ} : {A : Type ℓ} (a : ℕ → A) (i : ℕ) (v : A) (j : ℕ) → j ≢ i → write a i v j ≡ a j
unfolding write
write_ne a i v j h = ground arith

-- A word in a memory of bytes, from the lowest of its bytes on.
abbrev pub word : (ℕ → ℕ) → ℕ → ℕ
word m a = m a + m (u32 (a + 1)) * 2 ^ 8 + m (u32 (a + 2)) * 2 ^ 16 + m (u32 (a + 3)) * 2 ^ 24
