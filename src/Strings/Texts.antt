-- ===== src/Strings/Texts.antt =====
-- Texts in memory, and their length by `strlen` of src/libs/mstring.c.
use bit_simple_kernel.Prelude.{
  ℕ, zero, suc, ◌+◌, ◌<◌, ◌==◌, ◌≡◌, ◌≢◌, ap, ◌∙◌, arith, List, [], ◌∷◌, length, some, false,
}
use bit_simple_kernel.Strings.{strlen_from, strlen}

-- The bytes of the text stand at `a`, and a zero behind them.
abbrev pub IsText : (ℕ → ℕ) → ℕ → List ℕ → Type 0
IsText m a [] = m a ≡ 0
IsText m a (x ∷ xs) = (m a ≡ x) × (x ≢ 0) × (x < 256) × IsText m (a + 1) xs

strlen_from-length :
    (m : ℕ → ℕ) (fuel a cnt : ℕ) (xs : List ℕ)
    → length xs < fuel
    → IsText m a xs
    → strlen_from fuel a cnt m ≡ some (cnt + length xs)
unfolding strlen_from
strlen_from-length m zero a cnt xs h t = absurd (omega arith)
strlen_from-length m (suc fuel) a cnt [] h t = rw t (ap some (omega arith))
strlen_from-length m (suc fuel) a cnt (x ∷ xs) h t =
    let more : (x == 0) ≡ false = ground (arith, t.1) in
    rw (t.0, more)
      (strlen_from-length m fuel (a + 1) (cnt + 1) xs (omega arith) t.3 ∙ ap some (omega arith))

-- On a text, with more fuel than it has characters, `strlen` returns its length.
pub strlen-length :
    (m : ℕ → ℕ) (fuel a : ℕ) (xs : List ℕ)
    → length xs < fuel
    → IsText m a xs
    → strlen fuel a m ≡ some (length xs)
strlen-length m fuel a xs h t = strlen_from-length m fuel a 0 xs h t ∙ ap some (omega arith)
