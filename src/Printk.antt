-- ===== src/Printk.antt =====
-- Formatted output: src/kernel/debug/printk.c and src/include/vargs.h. A format is the list of its
-- characters before the terminating zero. The arguments are 32-bit words, taken in turn. A width or
-- a precision is `none` where the code has -1, and agrees with the code's `int` below 2^31.
mod Numerals
unfoldable pub use Numerals.*
pub mod Number
pub mod Directive
pub mod Parse
pub mod Render
pub mod Output
pub mod Plain
pub mod Lines
pub mod Ends
pub mod Loop
mod Tests
use bit_simple_kernel.Prelude.{
  ℕ, zero, suc, ◌+◌, ◌-◌, ◌*◌, ◌/◌, ◌%◌, ◌^◌, ◌==◌, ◌&&◌, ◌||◌, not, ltb, leb, Bool, true, false,
  write, if◌then◌else◌, Option, none, some, List, [], ◌∷◌, ◌++◌, length, Run, ok, fault,
  out_of_fuel, Cmd, and_then, ◌>>=◌, ◌>>◌, pure,
}
use bit_simple_kernel.Strings.{strlen}

-- What `vsprintf` has written, from the start of the buffer; the arguments that are left; and the
-- bytes of the memory that arguments point into, which is not that of the buffer.
pub record Printer : Type 0 where
  pub out : List ℕ
  pub args : List ℕ
  pub mem : ℕ → ℕ

-- `*str++ = c` for each of the characters.
abbrev pub put : List ℕ → Cmd Printer (Unit {0})
put text s = ok tt (record s { out = s.out ++ text })

-- `va_arg`; behind the last argument there is no value.
unfoldable pub take_arg : List ℕ → Cmd Printer ℕ
take_arg [] s = fault
take_arg (a ∷ rest) s = ok a (record s { args = rest })

abbrev pub next_arg : Cmd Printer ℕ
next_arg s = take_arg s.args s

-- The `repeat` loop over the flags.
unfoldable pub skip_flags : Flags → List ℕ → Flags × List ℕ
skip_flags flags [] = (flags, [])
skip_flags flags (c ∷ f) =
    let left = skip_flags (record flags { left = true }) f in
    let plus = skip_flags (record flags { plus = true }) f in
    let space = skip_flags (record flags { space = true }) f in
    let special = skip_flags (record flags { special = true }) f in
    let zeropad = skip_flags (record flags { zeropad = true }) f in
    if c == b'-'
    then left
    else if c == b'+'
    then plus
    else if c == b' '
    then space
    else if c == b'#'
    then special
    else if c == b'0'
    then zeropad
    else (flags, c ∷ f)

-- A field width with the flags that it sets, or a precision, and the format from there on.
pub record Width : Type 0 where
  pub flags : Flags
  pub width : Option ℕ
  pub format : List ℕ

pub record Precision : Type 0 where
  pub precision : Option ℕ
  pub format : List ℕ

-- `field_width` from an argument, negative from 2^31 on. The negation of -2^31 is -2^31 again, which
-- pads nothing.
unfoldable pub width_of : Flags → List ℕ → ℕ → Width
width_of flags f a =
    if leb (2 ^ 31) a
    then record {
      flags = record flags { left = true };
      width = some (if a == 2 ^ 31 then 0 else (2 ^ 32 - a) % 2 ^ 32);
      format = f;
    }
    else record { flags = flags; width = some a; format = f }

-- The format stays at the star.
unfoldable pub get_width : Flags → List ℕ → Cmd Printer Width
get_width flags [] s = ok (record { flags = flags; width = none; format = [] }) s
get_width flags (c ∷ f) s =
    let number = skip_atoi 0 (c ∷ f) in
    if is_digit c
    then ok (record { flags = flags; width = some number.0; format = number.1 }) s
    else if c == b'*'
    then (do a ← next_arg; pure (width_of flags (c ∷ f) a)) s
    else ok (record { flags = flags; width = none; format = c ∷ f }) s

-- Behind the dot. A negative argument counts as 0, as does anything that is no number.
unfoldable pub dot_precision : List ℕ → Cmd Printer Precision
dot_precision [] s = ok (record { precision = some 0; format = [] }) s
dot_precision (c ∷ f) s =
    let number = skip_atoi 0 (c ∷ f) in
    if is_digit c
    then ok (record { precision = some number.0; format = number.1 }) s
    else if c == b'*'
    then (do
      a ← next_arg
      pure (record { precision = some (if leb (2 ^ 31) a then 0 else a); format = c ∷ f }))
        s
    else ok (record { precision = some 0; format = c ∷ f }) s

unfoldable pub get_precision : List ℕ → Cmd Printer Precision
get_precision [] s = ok (record { precision = none; format = [] }) s
get_precision (c ∷ f) s =
    if c == b'.' then dot_precision f s else ok (record { precision = none; format = c ∷ f }) s

unfoldable pub skip_qualifier : List ℕ → List ℕ
skip_qualifier [] = []
skip_qualifier (c ∷ f) = if c == b'h' || c == b'l' || c == b'L' then f else c ∷ f

-- A width or precision that is compared with a length: -1 is below all of them.
abbrev pub or_zero : Option ℕ → ℕ
or_zero none = 0
or_zero (some n) = n

-- `case 'c'`: the loops write one blank less than the width.
unfoldable pub put_char : Flags → Option ℕ → Cmd Printer (Unit {0})
put_char flags width s =
    let blanks = replicate (or_zero width - 1) b' ' in
    and_then (next_arg s)
      λ a. put (if flags.left then (a % 2 ^ 8) ∷ blanks else blanks ++ (a % 2 ^ 8) ∷ [])

-- No string is longer than the memory.
abbrev pub string_fuel : ℕ
string_fuel = 2 ^ 32

-- `*str++ = *s++`, `len` times.
unfoldable pub copied : (ℕ → ℕ) → ℕ → ℕ → List ℕ
copied m s zero = []
copied m s (suc len) = m s ∷ copied m (s + 1) len

-- `len` cut down to the precision.
abbrev pub cut : Option ℕ → ℕ → ℕ
cut none len = len
cut (some p) len = if ltb p len then p else len

-- What `strlen` returns. A text without an end runs through all of the memory, where not every page
-- is mapped.
abbrev pub measured : Option ℕ → Cmd Printer ℕ
measured none s = fault
measured (some n) s = ok n s

-- `case 's'`.
unfoldable pub put_string : Flags → Option ℕ → Option ℕ → Cmd Printer (Unit {0})
put_string flags width precision = do
  a ← next_arg
  n ← (λ s. measured (strlen string_fuel a s.mem) s)
  (λ s.
      let len = cut precision n in
      let text = copied s.mem a len in
      let blanks = replicate (or_zero width - len) b' ' in
      put (if flags.left then text ++ blanks else blanks ++ text) s)

-- `str = number(str, …)`; a null pointer is written through at the next character.
abbrev pub put_or_fault : Option (List ℕ) → Cmd Printer (Unit {0})
put_or_fault none s = fault
put_or_fault (some text) s = put text s

unfoldable pub put_number : ℕ → Option ℕ → Option ℕ → Flags → Cmd Printer (Unit {0})
put_number base width precision flags s =
    and_then (next_arg s)
      λ a. put_or_fault (number a base (or_zero width) (or_zero precision) flags)

-- `case 'p'`: eight digits with zeros unless a width is given.
unfoldable pub put_pointer : Flags → Option ℕ → Option ℕ → Cmd Printer (Unit {0})
put_pointer flags none precision =
    put_number 16 (some 8) precision (record flags { zeropad = true })
put_pointer flags (some w) precision = put_number 16 (some w) precision flags

-- `*ip = value`, four bytes from the lowest on.
unfoldable pub store_int : ℕ → ℕ → (ℕ → ℕ) → ℕ → ℕ
store_int a v m =
    let m₁ = write m a (v % 2 ^ 8) in
    let m₂ = write m₁ (a + 1) (v / 2 ^ 8 % 2 ^ 8) in
    write (write m₂ (a + 2) (v / 2 ^ 16 % 2 ^ 8)) (a + 3) (v / 2 ^ 24 % 2 ^ 8)

-- `case 'n'`.
unfoldable pub store_count : Cmd Printer (Unit {0})
store_count s =
    and_then (next_arg s) λ a t. ok tt (record t { mem = store_int a (length t.out) t.mem })

-- The `switch` on the conversion character.
unfoldable pub convert : Flags → Option ℕ → Option ℕ → ℕ → Cmd Printer (Unit {0})
convert flags width precision c =
    if c == b'c'
    then put_char flags width
    else if c == b's'
    then put_string flags width precision
    else if c == b'o'
    then put_number 8 width precision flags
    else if c == b'p'
    then put_pointer flags width precision
    else if c == b'x'
    then put_number 16 width precision (record flags { small = true })
    else if c == b'X'
    then put_number 16 width precision flags
    else if c == b'd' || c == b'i'
    then put_number 10 width precision (record flags { sign = true })
    else if c == b'u'
    then put_number 10 width precision flags
    else if c == b'b'
    then put_number 2 width precision flags
    else if c == b'n'
    then store_count
    else if c == b'%'
    then put (c ∷ [])
    else put (b'%' ∷ c ∷ [])

-- The same at the end of the format, which is not passed.
unfoldable pub convert_at : Flags → Option ℕ → Option ℕ → List ℕ → Cmd Printer (List ℕ)
convert_at flags width precision [] = put (b'%' ∷ []) >> pure []
convert_at flags width precision (c ∷ f) = convert flags width precision c >> pure f

-- A conversion, from behind the `%` on. The result is the format behind it.
unfoldable pub conversion : List ℕ → Cmd Printer (List ℕ)
conversion f = do
  w ← get_width (skip_flags no_flags f).0 (skip_flags no_flags f).1
  p ← get_precision w.format
  convert_at w.flags w.width p.precision (skip_qualifier p.format)

-- The `for` loop over the format.
unfoldable pub vsprintf_from : ℕ → List ℕ → Cmd Printer (Unit {0})
vsprintf_from fuel [] s = ok tt s
vsprintf_from zero (c ∷ f) s = out_of_fuel
vsprintf_from (suc fuel) (c ∷ f) s =
    let plain = and_then (put (c ∷ []) s) λ _. vsprintf_from fuel f in
    let special = and_then (conversion f s) λ rest. vsprintf_from fuel rest in
    if c == b'%' then special else plain

-- Each round takes a character of the format at least. The result is the length of the text.
unfoldable pub vsprintf : List ℕ → Cmd Printer ℕ
vsprintf format s = and_then (vsprintf_from (length format) format s) λ _ t. ok (length t.out) t
