-- ===== src/Printk/Tests.antt =====
-- Formatted output of single numbers and short formats.
use bit_simple_kernel.Prelude.{
  ℕ, ◌==◌, ◌≡◌, ◌≢◌, out_of_fuel, refl, true, List, [], ◌∷◌, length, ok, some, none, arith,
  if◌then◌else◌, All, chars, ltb, fault,
}
use bit_simple_kernel.Printk.{
  Flags, no_flags, number, vsprintf, replicate, digit, put_digits, sign_of, magnitude, prefix,
  number_digits, fill, take_arg, skip_flags, width_of, get_width, get_precision, skip_qualifier,
  convert, convert_at, conversion, vsprintf_from,
}
use bit_simple_kernel.Printk.Number.{IsPrinted, number-IsPrinted}
use bit_simple_kernel.Printk.Directive.{
  Directive, plain, percent, converted, lower_hex, text, format_of, args_of, text_of, IsDirective,
}
use bit_simple_kernel.Printk.Output.{
  Tty, printk, printk_color, buffer_size, with_text, printk-text_of,
}
use bit_simple_kernel.Printk.Loop.{vsprintf_from-ends}
use bit_simple_kernel.Printk.Render.{printer, vsprintf-text_of}

-- "%+6.4d" of -42 by hand.
abbrev signed_flags : Flags
signed_flags = record no_flags { sign = true; plus = true }

number-IsPrinted_example :
    (text : List ℕ) × (number 0xFFFFFFD6 10 6 4 signed_flags ≡ some text)
    × IsPrinted signed_flags 10 0xFFFFFFD6 6 4 text
number-IsPrinted_example =
    number-IsPrinted signed_flags 10 0xFFFFFFD6 6 4 (omega arith) (omega arith) (omega arith)

number_test :
    number 0xFFFFFFD6 10 6 4 signed_flags ≡ some (b' ' ∷ b'-' ∷ b'0' ∷ b'0' ∷ b'4' ∷ b'2' ∷ [])
unfolding number sign_of magnitude prefix number_digits put_digits digit fill replicate
number_test = refl

-- "ab" at address 64.
abbrev two_letters : ℕ → ℕ
two_letters a = if a == 64 then b'a' else if a == 65 then b'b' else 0

-- "x%%%-4s|%08x".
abbrev directives : List Directive
directives =
    plain b'x'
    ∷ percent
    ∷ converted (b'-' ∷ []) (b'4' ∷ []) none (text 64 (b'a' ∷ b'b' ∷ []))
    ∷ plain b'|'
    ∷ converted (b'0' ∷ []) (b'8' ∷ []) none (lower_hex 0xB8000)
    ∷ []

directives-All : All (IsDirective two_letters) directives
directives-All = (
  λ e. omega (arith, e),
  (
    tt,
    (
      (
        (refl, tt),
        (λ e. omega (arith, e), (refl, tt), omega arith),
        tt,
        (
          (
            refl,
            λ e. omega (arith, e),
            omega arith,
            (refl, λ e. omega (arith, e), omega arith, refl),
          ),
          omega arith,
        ),
      ),
      (
        λ e. omega (arith, e),
        (((refl, tt), (λ e. omega (arith, e), (refl, tt), omega arith), tt, tt), tt),
      ),
    ),
  ),
)

vsprintf-text_of_example :
    vsprintf (format_of directives) (printer [] (64 ∷ 0xB8000 ∷ 7 ∷ []) two_letters)
    ≡ ok (length (text_of directives)) (printer (text_of directives) (7 ∷ []) two_letters)
unfolding args_of
vsprintf-text_of_example = vsprintf-text_of directives (7 ∷ []) two_letters directives-All

abbrev screen : Tty
screen = record {
  console = record { video_memory = λ _. 0; cursor_x = 0; cursor_y = 0; ports = [] };
  mem = two_letters;
}

printk-text_of_example :
    (printk_color 0 4 (format_of directives) (64 ∷ 0xB8000 ∷ []) screen ≡ (
      if ltb (length (text_of directives)) buffer_size
      then ok tt (with_text 0 4 (text_of directives) screen)
      else fault))
    × (printk (format_of directives) (64 ∷ 0xB8000 ∷ []) screen ≡ (
        if ltb (length (text_of directives)) buffer_size
        then ok tt (with_text 0 15 (text_of directives) screen)
        else fault))
unfolding args_of
printk-text_of_example = printk-text_of directives [] 0 4 screen directives-All

vsprintf_from-ends_example :
    (vsprintf_from 9 (chars "%*d") (printer [] (5 ∷ 42 ∷ []) two_letters) ≢ out_of_fuel)
    × (vsprintf_from 9 (chars "%*d") (printer [] (5 ∷ 42 ∷ []) two_letters)
        ≡ vsprintf_from 3 (chars "%*d") (printer [] (5 ∷ 42 ∷ []) two_letters))
unfolding chars
vsprintf_from-ends_example =
    vsprintf_from-ends 9 (chars "%*d") (printer [] (5 ∷ 42 ∷ []) two_letters) (omega arith)

-- The width is taken from the arguments, but the star stays in the format: it is the conversion
-- character then, and the 42 is not printed.
star_width :
    vsprintf (chars "%*d") (printer [] (5 ∷ 42 ∷ []) two_letters)
    ≡ ok 3 (printer (chars "%*d") (42 ∷ []) two_letters)
unfolding vsprintf vsprintf_from conversion skip_flags get_width get_precision skip_qualifier
    convert_at convert take_arg width_of chars
star_width = refl
