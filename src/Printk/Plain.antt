-- ===== src/Printk/Plain.antt =====
-- Formats of `printk` with plain text around one or two conversions.
use mathlib.Core.List.{append-nil}
use bit_simple_kernel.Prelude.{
  ℕ, ◌-◌, ◌<◌, ◌≤◌, ◌==◌, ◌≡◌, ◌∙◌, ◌&&◌, not, sym, ap, refl, if◌then◌else◌, List, [], ◌∷◌, ◌++◌,
  ok, Bool, length, take, ltb, true, none, arith, All, lt→ltb,
}
use bit_simple_kernel.Printk.{
  no_flags, digit_fuel, number, number_digits, fill, prefix, sign_of, magnitude, replicate,
}
use bit_simple_kernel.Printk.Number.{length-put_digits}
use bit_simple_kernel.Printk.Directive.{
  Conversion, text, Directive, plain, converted, number_text, shown, conversion_char, argument,
  format_of, args_of, text_of, IsDirective, IsArgument,
}
use bit_simple_kernel.Printk.Output.{
  Tty, printk, printk_color, printk-text_of, with_text, buffer_size,
}

-- Plain text has no `%`.
abbrev pub is_plain : List ℕ → Bool
is_plain [] = true
is_plain (c ∷ cs) = not (c == b'%') && is_plain cs

abbrev pub plains : List ℕ → List Directive
plains [] = []
plains (c ∷ cs) = plain c ∷ plains cs

module _ (ds : List Directive) where
  format_of-plains : (t : List ℕ) → format_of (plains t ++ ds) ≡ t ++ format_of ds
  unfolding format_of
  format_of-plains [] = refl
  format_of-plains (c ∷ cs) = ap (λ l. c ∷ l) (format_of-plains cs)

  args_of-plains : (t : List ℕ) → args_of (plains t ++ ds) ≡ args_of ds
  unfolding args_of
  args_of-plains [] = refl
  args_of-plains (c ∷ cs) = args_of-plains cs

  text_of-plains : (t : List ℕ) → text_of (plains t ++ ds) ≡ t ++ text_of ds
  unfolding text_of
  text_of-plains [] = refl
  text_of-plains (c ∷ cs) = ap (λ l. c ∷ l) (text_of-plains cs)

  pub plains-All :
      (m : ℕ → ℕ) (t : List ℕ)
      → is_plain t ≡ true
      → All (IsDirective m) ds
      → All (IsDirective m) (plains t ++ ds)
  plains-All m [] h all = all
  plains-All m (c ∷ cs) h all = (ground (arith, h), plains-All m cs (ground (arith, h)) all)

-- A conversion without flags, width and precision.
abbrev bare : Conversion → Directive
bare k = converted [] [] none k

abbrev pub shown_bare : Conversion → List ℕ
shown_bare k = shown no_flags none none k

-- `text % k text`, and what it says.
abbrev pub around : List ℕ → Conversion → List ℕ → List ℕ
around t k u = t ++ (b'%' ∷ conversion_char k ∷ u)

abbrev pub said : List ℕ → Conversion → List ℕ → List ℕ
said t k u = t ++ (shown_bare k ++ u)

-- What is known of `printk` on a format.
abbrev pub Prints : List ℕ → List ℕ → Tty → List ℕ → Type 0
Prints format args s line =
    (back fore : ℕ)
    → (printk_color back fore format args s ≡ ok tt (with_text back fore line s))
      × (printk format args s ≡ ok tt (with_text 0 15 line s))

pub prints :
    (format args line : List ℕ) (ds : List Directive) (s : Tty)
    → format ≡ format_of ds
    → args ≡ args_of ds
    → text_of ds ≡ line
    → All (IsDirective s.mem) ds
    → length line < buffer_size
    → Prints format args s line
prints format args line ds s f a t all short back fore =
    let fits : ltb (length line) buffer_size ≡ true = lt→ltb (length line) buffer_size short in
    let run = printk-text_of ds [] back fore s all in
    let given : args ≡ args_of ds ++ [] = a ∙ sym (append-nil (args_of ds)) in
    rw (f, given) (run.0 ∙ rw (t, fits) refl, run.1 ∙ rw (t, fits) refl)

pub printk-plain :
    (t : List ℕ) (s : Tty) → is_plain t ≡ true → length t < buffer_size → Prints t [] s t
unfolding format_of args_of text_of
printk-plain t s h short =
    let nil = append-nil t in
    prints t [] t (plains t ++ []) s (sym (format_of-plains [] t ∙ nil)) (sym (args_of-plains [] t))
      (text_of-plains [] t ∙ nil) (plains-All [] s.mem t h tt) short

pub printk-around :
    (t : List ℕ) (k : Conversion) (u line : List ℕ) (s : Tty)
    → is_plain t ≡ true
    → is_plain u ≡ true
    → IsArgument s.mem k
    → said t k u ≡ line
    → length line < buffer_size
    → Prints (around t k u) (argument k ∷ []) s line
unfolding format_of args_of text_of
printk-around t k u line s ht hu h e short =
    let nil = append-nil u in
    let ds = bare k ∷ (plains u ++ []) in
    prints (around t k u) (argument k ∷ []) line (plains t ++ ds) s
      (sym (
        format_of-plains ds t
        ∙ ap (λ l. t ++ (b'%' ∷ conversion_char k ∷ l)) (format_of-plains [] u ∙ nil)))
      (sym (args_of-plains ds t ∙ ap (λ l. argument k ∷ l) (args_of-plains [] u)))
      (text_of-plains ds t ∙ ap (λ l. t ++ (shown_bare k ++ l)) (text_of-plains [] u ∙ nil) ∙ e)
      (plains-All ds s.mem t ht ((tt, tt, tt, h), plains-All [] s.mem u hu tt)) short

pub printk-around_two :
    (t : List ℕ) (k : Conversion) (u : List ℕ) (j : Conversion) (v line : List ℕ) (s : Tty)
    → is_plain t ≡ true
    → is_plain u ≡ true
    → is_plain v ≡ true
    → IsArgument s.mem k
    → IsArgument s.mem j
    → said t k (said u j v) ≡ line
    → length line < buffer_size
    → Prints (around t k (around u j v)) (argument k ∷ argument j ∷ []) s line
unfolding format_of args_of text_of
printk-around_two t k u j v line s ht hu hv h g e short =
    let nil = append-nil v in
    let es = bare j ∷ (plains v ++ []) in
    let ds = bare k ∷ (plains u ++ es) in
    prints (around t k (around u j v)) (argument k ∷ argument j ∷ []) line (plains t ++ ds) s
      (sym (
        format_of-plains ds t
        ∙ ap (λ l. t ++ (b'%' ∷ conversion_char k ∷ l))
            (format_of-plains es u
              ∙ ap (λ l. u ++ (b'%' ∷ conversion_char j ∷ l)) (format_of-plains [] v ∙ nil))))
      (sym (
        args_of-plains ds t
        ∙ ap (λ l. argument k ∷ l)
            (args_of-plains es u ∙ ap (λ l. argument j ∷ l) (args_of-plains [] v))))
      (text_of-plains ds t
        ∙ ap (λ l. t ++ (shown_bare k ++ l))
            (text_of-plains es u ∙ ap (λ l. u ++ (shown_bare j ++ l)) (text_of-plains [] v ∙ nil))
        ∙ e)
      (plains-All ds s.mem t ht
        ((tt, tt, tt, h), plains-All es s.mem u hu ((tt, tt, tt, g), plains-All [] s.mem v hv tt)))
      short

-- The digits of a number in base 16.
abbrev pub hex_digits : ℕ → List ℕ
hex_digits n = number_digits (record no_flags { small = true }) 16 n

pub hex_of_lem :
    (n : ℕ) → number_text (record no_flags { small = true }) none none 16 n ≡ hex_digits n
unfolding number fill sign_of prefix magnitude replicate
hex_of_lem n =
    let i = length (hex_digits n) in
    let no_zeros : (if ltb 0 i then i else 0) - i ≡ 0 = ground arith in
    let no_room : 0 - 0 - 0 - (if ltb 0 i then i else 0) ≡ 0 = omega arith in
    rw (no_zeros, no_room) (append-nil (hex_digits n))

pub length-hex_digits : (n : ℕ) → length (hex_digits n) ≤ 33
unfolding number_digits
length-hex_digits n = ground (arith, length-put_digits true 16 digit_fuel n [])

-- A text is shown whole.
pub shown-text : (a : ℕ) (xs : List ℕ) → shown_bare (text a xs) ≡ xs
unfolding take replicate
shown-text a xs =
    let no_blanks : 0 - length xs ≡ 0 = omega arith in rw (take_all xs, no_blanks) refl
  where
    take_all : (xs : List ℕ) → take (length xs) xs ≡ xs
    take_all [] = refl
    take_all (x ∷ xs) = ap (λ l. x ∷ l) (take_all xs)
