-- ===== src/Printk/Directive.antt =====
-- What a format says: directives, how they are written, and the text that each of them stands for.
use bit_simple_kernel.Prelude.{
  ℕ, ◌+◌, ◌-◌, ◌*◌, ◌%◌, ◌^◌, ◌==◌, ◌||◌, Bool, true, ◌≡◌, ◌≢◌, ◌<◌, if◌then◌else◌, Option, none,
  some, List, [], ◌∷◌, ◌++◌, length, All, take,
}
use bit_simple_kernel.Strings.Texts.{IsText}
use bit_simple_kernel.Printk.{
  Flags, no_flags, is_digit, replicate, number, or_zero, cut, string_fuel,
}

-- What is converted, with its argument. A text has the address at which it stands as well.
pub data Conversion : Type 0 where
  character : ℕ → Conversion
  text : ℕ → List ℕ → Conversion
  octal lower_hex upper_hex decimal unsigned binary : ℕ → Conversion

-- A character that is no `%`; `%%`; or a conversion with its flags, and with the digits of its width
-- and its precision, which may be absent.
pub data Directive : Type 0 where
  plain : ℕ → Directive
  percent : Directive
  converted : List ℕ → List ℕ → Option (List ℕ) → Conversion → Directive

abbrev pub conversion_char : Conversion → ℕ
conversion_char (character c) = b'c'
conversion_char (text a xs) = b's'
conversion_char (octal n) = b'o'
conversion_char (lower_hex n) = b'x'
conversion_char (upper_hex n) = b'X'
conversion_char (decimal n) = b'd'
conversion_char (unsigned n) = b'u'
conversion_char (binary n) = b'b'

abbrev pub argument : Conversion → ℕ
argument (character c) = c
argument (text a xs) = a
argument (octal n) = n
argument (lower_hex n) = n
argument (upper_hex n) = n
argument (decimal n) = n
argument (unsigned n) = n
argument (binary n) = n

abbrev pub precision_chars : Option (List ℕ) → List ℕ
precision_chars none = []
precision_chars (some ds) = b'.' ∷ ds

-- How a list of directives is written, and the arguments that go with it.
unfoldable pub format_of : List Directive → List ℕ
format_of [] = []
format_of (plain c ∷ ds) = c ∷ format_of ds
format_of (percent ∷ ds) = b'%' ∷ b'%' ∷ format_of ds
format_of (converted flags width precision k ∷ ds) =
    b'%' ∷ (flags ++ (width ++ (precision_chars precision ++ conversion_char k ∷ format_of ds)))

unfoldable pub args_of : List Directive → List ℕ
args_of [] = []
args_of (plain c ∷ ds) = args_of ds
args_of (percent ∷ ds) = args_of ds
args_of (converted flags width precision k ∷ ds) = argument k ∷ args_of ds

abbrev pub is_flag : ℕ → Bool
is_flag c = c == b'-' || c == b'+' || c == b' ' || c == b'#' || c == b'0'

-- The flag that a character sets.
abbrev pub with_flag : Flags → ℕ → Flags
with_flag flags c =
    if c == b'-'
    then record flags { left = true }
    else if c == b'+'
    then record flags { plus = true }
    else if c == b' '
    then record flags { space = true }
    else if c == b'#'
    then record flags { special = true }
    else record flags { zeropad = true }

abbrev pub with_flags : Flags → List ℕ → Flags
with_flags flags [] = flags
with_flags flags (c ∷ cs) = with_flags (with_flag flags c) cs

-- The number that decimal digits spell, behind `n`.
abbrev pub decimal_value : ℕ → List ℕ → ℕ
decimal_value n [] = n
decimal_value n (c ∷ cs) = decimal_value (n * 10 + c - b'0') cs

abbrev pub width_value : List ℕ → Option ℕ
width_value [] = none
width_value (c ∷ cs) = some (decimal_value 0 (c ∷ cs))

abbrev pub precision_value : Option (List ℕ) → Option ℕ
precision_value none = none
precision_value (some ds) = some (decimal_value 0 ds)

-- A text with blanks up to the width.
abbrev pub padded : Flags → Option ℕ → List ℕ → List ℕ
padded flags width content =
    let blanks = replicate (or_zero width - length content) b' ' in
    if flags.left then content ++ blanks else blanks ++ content

-- The text of a number; `number` has one for each of the bases here.
abbrev pub number_text : Flags → Option ℕ → Option ℕ → ℕ → ℕ → List ℕ
number_text flags width precision base n =
    elim (number n base (or_zero width) (or_zero precision) flags) [ none ↦ [] | some t ↦ t ]

abbrev pub shown : Flags → Option ℕ → Option ℕ → Conversion → List ℕ
shown flags width precision (character c) = padded flags width ((c % 2 ^ 8) ∷ [])
shown flags width precision (text a xs) = padded flags width (take (cut precision (length xs)) xs)
shown flags width precision (octal n) = number_text flags width precision 8 n
shown flags width precision (lower_hex n) =
    number_text (record flags { small = true }) width precision 16 n
shown flags width precision (upper_hex n) = number_text flags width precision 16 n
shown flags width precision (decimal n) =
    number_text (record flags { sign = true }) width precision 10 n
shown flags width precision (unsigned n) = number_text flags width precision 10 n
shown flags width precision (binary n) = number_text flags width precision 2 n

-- The text that a list of directives stands for.
unfoldable pub text_of : List Directive → List ℕ
text_of [] = []
text_of (plain c ∷ ds) = c ∷ text_of ds
text_of (percent ∷ ds) = b'%' ∷ text_of ds
text_of (converted flags width precision k ∷ ds) =
    shown (with_flags no_flags flags) (width_value width) (precision_value precision) k
    ++ text_of ds

abbrev pub IsDigits : List ℕ → Type 0
IsDigits ds = All (λ c. is_digit c ≡ true) ds

-- A width does not start with a zero, which would be a flag, and is an `int`.
abbrev pub IsWidth : List ℕ → Type 0
IsWidth [] = Unit
IsWidth (c ∷ cs) = (c ≢ b'0') × IsDigits (c ∷ cs) × (decimal_value 0 (c ∷ cs) < 2 ^ 31)

abbrev pub IsPrecision : Option (List ℕ) → Type 0
IsPrecision none = Unit
IsPrecision (some ds) = IsDigits ds × (decimal_value 0 ds < 2 ^ 31)

-- A text argument stands in memory.
abbrev pub IsArgument : (ℕ → ℕ) → Conversion → Type 0
IsArgument m (text a xs) = IsText m a xs × (length xs < string_fuel)
IsArgument m _ = Unit

abbrev pub IsDirective : (ℕ → ℕ) → Directive → Type 0
IsDirective m (plain c) = c ≢ b'%'
IsDirective m percent = Unit
IsDirective m (converted flags width precision k) =
    All (λ c. is_flag c ≡ true) flags × IsWidth width × IsPrecision precision × IsArgument m k
