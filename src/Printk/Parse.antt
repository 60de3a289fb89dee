-- ===== src/Printk/Parse.antt =====
-- How `vsprintf` reads the flags, the width and the precision of a written directive.
use bit_simple_kernel.Prelude.{
  ℕ, ◌+◌, ◌-◌, ◌*◌, ◌==◌, ◌||◌, Bool, true, false, ◌≡◌, refl, arith, Option, none, some, List, [],
  ◌∷◌, ◌++◌, All, ok,
}
use bit_simple_kernel.Printk.{
  Flags, is_digit, skip_atoi, Printer, skip_flags, get_width, dot_precision, get_precision,
  skip_qualifier,
}
use bit_simple_kernel.Printk.Directive.{
  is_flag, with_flag, with_flags, decimal_value, width_value, precision_value, precision_chars,
  IsDigits, IsWidth, IsPrecision, Conversion, character, text, octal, lower_hex, upper_hex, decimal,
  unsigned, binary, conversion_char,
}

-- What a text starts with.
abbrev pub starts : (ℕ → Bool) → List ℕ → Bool
starts p [] = false
starts p (c ∷ cs) = p c

pub skip_flags-append :
    (flags : Flags) (cs rest : List ℕ)
    → All (λ c. is_flag c ≡ true) cs
    → starts is_flag rest ≡ false
    → skip_flags flags (cs ++ rest) ≡ (with_flags flags cs, rest)
unfolding skip_flags
skip_flags-append flags [] [] h k = refl
skip_flags-append flags [] (c ∷ rest) h k = ground arith
skip_flags-append flags (c ∷ cs) rest h k =
    ground (arith, h.0, skip_flags-append (with_flag flags c) cs rest h.1 k)

pub skip_atoi-append :
    (n : ℕ) (ds rest : List ℕ)
    → IsDigits ds
    → starts is_digit rest ≡ false
    → skip_atoi n (ds ++ rest) ≡ (decimal_value n ds, rest)
unfolding skip_atoi
skip_atoi-append n [] [] h k = refl
skip_atoi-append n [] (c ∷ rest) h k = ground arith
skip_atoi-append n (c ∷ ds) rest h k = rw h.0 (skip_atoi-append (n * 10 + c - b'0') ds rest h.1 k)

abbrev pub is_width_start : ℕ → Bool
is_width_start c = is_digit c || c == b'*'

no_digit_follows :
    (rest : List ℕ) → starts is_width_start rest ≡ false → starts is_digit rest ≡ false
no_digit_follows [] k = refl
no_digit_follows (c ∷ rest) k = ground arith

abbrev pub is_spec_start : ℕ → Bool
is_spec_start c = is_width_start c || c == b'.'

no_width_follows :
    (rest : List ℕ) → starts is_spec_start rest ≡ false → starts is_width_start rest ≡ false
no_width_follows [] k = refl
no_width_follows (c ∷ rest) k = ground arith

pub get_width-append :
    (flags : Flags) (ds rest : List ℕ) (s : Printer)
    → IsWidth ds
    → starts is_width_start rest ≡ false
    → get_width flags (ds ++ rest) s
      ≡ ok (record { flags = flags; width = width_value ds; format = rest }) s
unfolding get_width
get_width-append flags [] [] s h k = refl
get_width-append flags [] (c ∷ rest) s h k =
    let no_digit : is_digit c ≡ false = ground arith in
    let no_star : (c == b'*') ≡ false = ground arith in rw (no_digit, no_star) refl
get_width-append flags (c ∷ ds) rest s h k =
    rw (h.1.0, skip_atoi-append 0 (c ∷ ds) rest h.1 (no_digit_follows rest k)) refl

pub get_precision-append :
    (p : Option (List ℕ)) (rest : List ℕ) (s : Printer)
    → IsPrecision p
    → starts is_spec_start rest ≡ false
    → get_precision (precision_chars p ++ rest) s
      ≡ ok (record { precision = precision_value p; format = rest }) s
unfolding get_precision dot_precision
get_precision-append none [] s h k = refl
get_precision-append none (c ∷ rest) s h k =
    let no_dot : (c == b'.') ≡ false = ground arith in rw no_dot refl
get_precision-append (some []) [] s h k = refl
get_precision-append (some []) (c ∷ rest) s h k =
    let no_digit : is_digit c ≡ false = ground arith in
    let no_star : (c == b'*') ≡ false = ground arith in rw (no_digit, no_star) refl
get_precision-append (some (d ∷ ds)) rest s h k =
    let follows = no_digit_follows rest (no_width_follows rest k) in
    rw (h.0.0, skip_atoi-append 0 (d ∷ ds) rest h.0 follows) refl

-- No conversion character is taken for anything else.
pub conversion_char_follows :
    (k : Conversion) (f : List ℕ)
    → (is_flag (conversion_char k) ≡ false)
      × (is_spec_start (conversion_char k) ≡ false)
      × (skip_qualifier (conversion_char k ∷ f) ≡ conversion_char k ∷ f)
unfolding skip_qualifier
conversion_char_follows (character c) f = (refl, refl, refl)
conversion_char_follows (text a xs) f = (refl, refl, refl)
conversion_char_follows (octal n) f = (refl, refl, refl)
conversion_char_follows (lower_hex n) f = (refl, refl, refl)
conversion_char_follows (upper_hex n) f = (refl, refl, refl)
conversion_char_follows (decimal n) f = (refl, refl, refl)
conversion_char_follows (unsigned n) f = (refl, refl, refl)
conversion_char_follows (binary n) f = (refl, refl, refl)
