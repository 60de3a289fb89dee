-- ===== src/Printk/Lines.antt =====
-- How long the text of a format can be, and what `printk` makes of a format whose text cannot fill
-- the buffer.
use bit_simple_kernel.Prelude.{
  ℕ, zero, suc, ◌+◌, ◌-◌, ◌%◌, ◌^◌, ◌<◌, ◌≤◌, ◌≡◌, ◌&&◌, ◌||◌, not, refl, if◌then◌else◌, List, [],
  ◌∷◌, ◌++◌, Bool, length, length-append, take, ltb, true, false, Option, some, arith, All,
}
use bit_simple_kernel.Printk.{
  Flags, no_flags, digit_fuel, number, number_digits, fill, prefix, sign_of, magnitude, replicate,
  or_zero, cut,
}
use bit_simple_kernel.Printk.Number.{length-put_digits, length-replicate}
use bit_simple_kernel.Printk.Directive.{
  Conversion, character, text, octal, lower_hex, upper_hex, decimal, unsigned, binary, Directive,
  plain, percent, converted, number_text, padded, shown, with_flags, width_value, precision_value,
  format_of, args_of, text_of, IsDirective,
}
use bit_simple_kernel.Printk.Output.{Tty, buffer_size}
use bit_simple_kernel.Printk.Plain.{Prints, prints}

length-sign_of : (type : Flags) (n : ℕ) → length (sign_of type n) ≤ 1
unfolding sign_of
length-sign_of type n = ground arith

length-prefix : (type : Flags) (base : ℕ) → length (prefix type base) ≤ 2
unfolding prefix
length-prefix type base = ground arith

length-number_digits : (type : Flags) (base n : ℕ) → length (number_digits type base n) ≤ 32
unfolding number_digits
length-number_digits type base n = ground (arith, length-put_digits type.small base digit_fuel n [])

length-fill :
    (left zeropad : Bool) (size : ℕ) (head body : List ℕ)
    → length (fill left zeropad size head body) ≤ size + length head + length body
unfolding fill
length-fill left zeropad size head body = simp (length-append, length-replicate) (ground arith)

length-number :
    (type : Flags) (n base size precision : ℕ)
    → (ltb base 2 || ltb 36 base) ≡ false
    → (t : List ℕ) × (number n base size precision type ≡ some t)
      × (length t ≤ size + precision + 36)
unfolding number
length-number type n base size precision e =
    let sign = sign_of type n in
    let tmp = number_digits type base (magnitude type n) in
    let written = if ltb precision (length tmp) then length tmp else precision in
    let body = replicate (written - length tmp) b'0' ++ tmp in
    let room = size - length sign - length (prefix type base) - written in
    let zeropad = type.zeropad && not type.left in
    let body_long : length body ≡ written = simp (length-append, length-replicate) (ground arith) in
    (
      fill type.left zeropad room (sign ++ prefix type base) body,
      rw e refl,
      ground (
        arith,
        length-fill type.left zeropad room (sign ++ prefix type base) body,
        body_long,
        length-append sign (prefix type base),
        length-sign_of type n,
        length-prefix type base,
        length-number_digits type base (magnitude type n),
      ),
    )

length-number_text :
    (type : Flags) (w p : Option ℕ) (base n : ℕ)
    → (ltb base 2 || ltb 36 base) ≡ false
    → length (number_text type w p base n) ≤ or_zero w + or_zero p + 36
length-number_text type w p base n e =
    let t = length-number type n base (or_zero w) (or_zero p) e in rw (length, number_text, t.1) t.2

length-padded :
    (type : Flags) (w : Option ℕ) (xs : List ℕ) → length (padded type w xs) ≤ or_zero w + length xs
length-padded type w xs =
    let blanks = replicate (or_zero w - length xs) b' ' in
    ground (
      arith,
      length-append xs blanks,
      length-append blanks xs,
      length-replicate (or_zero w - length xs) b' ',
    )

length-take : (n : ℕ) (xs : List ℕ) → length (take n xs) ≤ length xs
unfolding take
length-take zero xs = omega arith
length-take (suc n) [] = omega arith
length-take (suc n) (x ∷ xs) = omega (arith, length-take n xs)

-- Room for the text of an argument, but for the width and the precision.
abbrev pub room_for : Conversion → ℕ
room_for (text a xs) = length xs
room_for _ = 36

shown-room :
    (type : Flags) (w p : Option ℕ) (k : Conversion)
    → length (shown type w p k) ≤ or_zero w + or_zero p + room_for k
shown-room type w p (character c) = omega (arith, length-padded type w ((c % 2 ^ 8) ∷ []))
shown-room type w p (text a xs) =
    omega (
      arith,
      length-padded type w (take (cut p (length xs)) xs),
      length-take (cut p (length xs)) xs,
    )
shown-room type w p (octal n) = length-number_text type w p 8 n refl
shown-room type w p (lower_hex n) = length-number_text (record type { small = true }) w p 16 n refl
shown-room type w p (upper_hex n) = length-number_text type w p 16 n refl
shown-room type w p (decimal n) = length-number_text (record type { sign = true }) w p 10 n refl
shown-room type w p (unsigned n) = length-number_text type w p 10 n refl
shown-room type w p (binary n) = length-number_text type w p 2 n refl

-- Room for the text of a list of directives.
abbrev pub room : List Directive → ℕ
room [] = 0
room (plain c ∷ ds) = 1 + room ds
room (percent ∷ ds) = 1 + room ds
room (converted flags width precision k ∷ ds) =
    or_zero (width_value width) + or_zero (precision_value precision) + room_for k + room ds

pub length-text_of : (ds : List Directive) → length (text_of ds) ≤ room ds
unfolding text_of
length-text_of [] = omega arith
length-text_of (plain c ∷ ds) = omega (arith, length-text_of ds)
length-text_of (percent ∷ ds) = omega (arith, length-text_of ds)
length-text_of (converted flags width precision k ∷ ds) =
    let type = with_flags no_flags flags in
    omega (
      arith,
      length-append (shown type (width_value width) (precision_value precision) k) (text_of ds),
      shown-room type (width_value width) (precision_value precision) k,
      length-text_of ds,
    )

-- A list of directives that has room in the buffer is printed.
pub printk-room :
    (ds : List Directive) (s : Tty)
    → All (IsDirective s.mem) ds
    → room ds < buffer_size
    → Prints (format_of ds) (args_of ds) s (text_of ds)
printk-room ds s all short =
    prints (format_of ds) (args_of ds) (text_of ds) ds s refl refl refl all
      (omega (arith, length-text_of ds))
