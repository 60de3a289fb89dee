-- ===== src/Strings/Tests.antt =====
-- Two short texts in memory, for src/libs/mstring.c.
use bit_simple_kernel.Prelude.{
  ℕ, ◌==◌, ◌≡◌, ◌↔◌, inl, arith, refl, List, [], ◌∷◌, ◌++◌, if◌then◌else◌, some,
}
use bit_simple_kernel.Strings.{equal, strcmp, strcat}
use bit_simple_kernel.Strings.Texts.{IsText}
use bit_simple_kernel.Strings.Order.{compare, strcmp-compare}
use bit_simple_kernel.Strings.Copy.{strcat-IsText}

-- "a" at 100 and "b" at 200, with bytes of an older text behind the first.
abbrev memory : ℕ → ℕ
memory a = if a == 100 then 97 else if a == 200 then 98 else if a == 102 then 120 else 0

abbrev text_a : List ℕ
text_a = 97 ∷ []

abbrev text_b : List ℕ
text_b = 98 ∷ []

strcmp-compare_example :
    (strcmp 9 100 200 memory ≡ some (compare text_a text_b))
    × ((compare text_a text_b ≡ equal) ↔ (text_a ≡ text_b))
strcmp-compare_example =
    strcmp-compare memory 9 100 200 text_a text_b (omega arith)
      (refl, omega arith, omega arith, refl) (refl, omega arith, omega arith, refl)

strcat-IsText_example :
    (n : ℕ → ℕ) × (strcat 9 100 200 memory ≡ some n)
    × (IsText n 100 (text_a ++ text_b) ↔ (memory 102 ≡ 0))
strcat-IsText_example =
    strcat-IsText memory 9 100 200 text_a text_b (omega arith) (omega arith)
      (refl, omega arith, omega arith, refl) (refl, omega arith, omega arith, refl)
      (inl (omega arith))
