-- ===== src/Printk/Render.antt =====
-- The text that `vsprintf` of src/kernel/debug/printk.c writes for a list of directives.
use mathlib.Core.List.{append_assoc, append-nil}
use bit_simple_kernel.Prelude.{
  ℕ, zero, suc, ◌+◌, ◌≤◌, ◌==◌, false, ◌≡◌, refl, ap, ap₂, arith, Option, none, some, List, [], ◌∷◌,
  ◌++◌, length, length-append, take, All, ok,
}
use bit_simple_kernel.Strings.Texts.{IsText, strlen-length}
use bit_simple_kernel.Printk.{
  Flags, no_flags, Printer, take_arg, put_char, put_string, put_number, copied, cut, string_fuel,
  number, convert, convert_at, conversion, vsprintf_from, vsprintf, skip_flags, get_width,
  get_precision, skip_qualifier,
}
use bit_simple_kernel.Printk.Directive.{
  Conversion, character, text, octal, lower_hex, upper_hex, decimal, unsigned, binary, Directive,
  plain, percent, converted, conversion_char, argument, precision_chars, format_of, args_of,
  is_flag, with_flags, width_value, precision_value, shown, text_of, IsWidth, IsArgument,
  IsDirective,
}
use bit_simple_kernel.Printk.Parse.{
  starts, skip_flags-append, get_width-append, get_precision-append, conversion_char_follows,
  is_width_start,
}

abbrev pub printer : List ℕ → List ℕ → (ℕ → ℕ) → Printer
printer out args m = record { out = out; args = args; mem = m }

copied-take :
    (m : ℕ → ℕ) (a n : ℕ) (xs : List ℕ) → n ≤ length xs → IsText m a xs → copied m a n ≡ take n xs
unfolding copied take
copied-take m a zero xs h t = refl
copied-take m a (suc n) [] h t = absurd (omega arith)
copied-take m a (suc n) (x ∷ xs) h t = ap₂ ◌∷◌ t.0 (copied-take m (a + 1) n xs (omega arith) t.3)

length-take : {A : Type 0} (n : ℕ) (xs : List A) → n ≤ length xs → length (take n xs) ≡ n
unfolding take
length-take zero xs h = refl
length-take (suc n) [] h = absurd (omega arith)
length-take (suc n) (x ∷ xs) h = ap (λ (k : ℕ). suc k) (length-take n xs (omega arith))

cut-le : (p : Option ℕ) (n : ℕ) → cut p n ≤ n
cut-le none n = omega arith
cut-le (some p) n = ground arith

convert-text :
    (flags : Flags) (width precision : Option ℕ) (a : ℕ) (xs out rest : List ℕ) (m : ℕ → ℕ)
    → IsArgument m (text a xs)
    → put_string flags width precision (printer out (a ∷ rest) m)
      ≡ ok tt (printer (out ++ shown flags width precision (text a xs)) rest m)
unfolding put_string take_arg
convert-text flags width precision a xs out rest m h =
    let within = cut-le precision (length xs) in
    rw
      (
        strlen-length m string_fuel a xs h.1 h.0,
        copied-take m a (cut precision (length xs)) xs within h.0,
        length-take (cut precision (length xs)) xs within,
      )
      refl

convert-shown :
    (flags : Flags) (width precision : Option ℕ) (k : Conversion) (out rest : List ℕ) (m : ℕ → ℕ)
    → IsArgument m k
    → convert flags width precision (conversion_char k) (printer out (argument k ∷ rest) m)
      ≡ ok tt (printer (out ++ shown flags width precision k) rest m)
unfolding convert put_char put_number take_arg number
convert-shown flags width precision (character c) out rest m h = refl
convert-shown flags width precision (text a xs) out rest m h =
    convert-text flags width precision a xs out rest m h
convert-shown flags width precision (octal n) out rest m h = refl
convert-shown flags width precision (lower_hex n) out rest m h = refl
convert-shown flags width precision (upper_hex n) out rest m h = refl
convert-shown flags width precision (decimal n) out rest m h = refl
convert-shown flags width precision (unsigned n) out rest m h = refl
convert-shown flags width precision (binary n) out rest m h = refl

-- What follows the flags, the width and the precision.
module _ (k : Conversion) (f : List ℕ) where
  abbrev tail : List ℕ
  tail = conversion_char k ∷ f

  after_width : (p : Option (List ℕ)) → starts is_width_start (precision_chars p ++ tail) ≡ false
  after_width none = ground (arith, (conversion_char_follows k f).1)
  after_width (some ds) = refl

  after_flags :
      (width : List ℕ) (p : Option (List ℕ))
      → IsWidth width
      → starts is_flag (width ++ (precision_chars p ++ tail)) ≡ false
  after_flags [] none h = (conversion_char_follows k f).0
  after_flags [] (some ds) h = refl
  after_flags (c ∷ cs) p h = ground (arith, h.0, h.1.0)

conversion-shown :
    (flags width : List ℕ) (p : Option (List ℕ)) (k : Conversion) (f out rest : List ℕ) (m : ℕ → ℕ)
    → IsDirective m (converted flags width p k)
    → conversion
        (flags ++ (width ++ (precision_chars p ++ conversion_char k ∷ f)))
        (printer out (argument k ∷ rest) m)
      ≡ ok f (
          printer
            (out ++ shown (with_flags no_flags flags) (width_value width) (precision_value p) k)
            rest
            m)
unfolding conversion convert_at
conversion-shown flags width p k f out rest m h =
    let s = printer out (argument k ∷ rest) m in
    let follows = conversion_char_follows k f in
    rw
      (
        skip_flags-append no_flags flags (width ++ (precision_chars p ++ conversion_char k ∷ f)) h.0
            (after_flags k f width p h.1),
        get_width-append (with_flags no_flags flags) width
            (precision_chars p ++ conversion_char k ∷ f) s h.1 (after_width k f p),
        get_precision-append p (conversion_char k ∷ f) s h.2 follows.1,
        follows.2,
        convert-shown (with_flags no_flags flags) (width_value width) (precision_value p) k out rest
            m h.3,
      )
      refl

conversion-percent :
    (f out args : List ℕ) (m : ℕ → ℕ)
    → conversion (b'%' ∷ f) (printer out args m) ≡ ok f (printer (out ++ b'%' ∷ []) args m)
unfolding conversion skip_flags get_width get_precision skip_qualifier convert_at convert
conversion-percent f out args m = refl

shorter :
    (flags width : List ℕ) (p : Option (List ℕ)) (c : ℕ) (f : List ℕ)
    → length f ≤ length (flags ++ (width ++ (precision_chars p ++ c ∷ f)))
shorter flags width p c f = omega (
  arith,
  length-append flags (width ++ (precision_chars p ++ c ∷ f)),
  length-append width (precision_chars p ++ c ∷ f),
  length-append (precision_chars p) (c ∷ f),
)

vsprintf_from-text_of :
    (fuel : ℕ) (ds : List Directive) (out rest : List ℕ) (m : ℕ → ℕ)
    → length (format_of ds) ≤ fuel
    → All (IsDirective m) ds
    → vsprintf_from fuel (format_of ds) (printer out (args_of ds ++ rest) m)
      ≡ ok tt (printer (out ++ text_of ds) rest m)
unfolding vsprintf_from format_of args_of text_of
vsprintf_from-text_of fuel [] out rest m h all = rw (append-nil out) refl
vsprintf_from-text_of zero (plain c ∷ ds) out rest m h all = absurd (omega arith)
vsprintf_from-text_of zero (percent ∷ ds) out rest m h all = absurd (omega arith)
vsprintf_from-text_of zero (converted flags width p k ∷ ds) out rest m h all = absurd (omega arith)
vsprintf_from-text_of (suc fuel) (plain c ∷ ds) out rest m h all =
    let no_percent : (c == b'%') ≡ false = ground (arith, all.0) in
    rw
      (
        no_percent,
        vsprintf_from-text_of fuel ds (out ++ c ∷ []) rest m (omega arith) all.1,
        append_assoc out (c ∷ []) (text_of ds),
      )
      refl
vsprintf_from-text_of (suc fuel) (percent ∷ ds) out rest m h all =
    rw
      (
        conversion-percent (format_of ds) out (args_of ds ++ rest) m,
        vsprintf_from-text_of fuel ds (out ++ b'%' ∷ []) rest m (omega arith) all.1,
        append_assoc out (b'%' ∷ []) (text_of ds),
      )
      refl
vsprintf_from-text_of (suc fuel) (converted flags width p k ∷ ds) out rest m h all =
    let written = shown (with_flags no_flags flags) (width_value width) (precision_value p) k in
    rw
      (
        conversion-shown flags width p k (format_of ds) out (args_of ds ++ rest) m all.0,
        vsprintf_from-text_of fuel ds (out ++ written) rest m
            (omega (arith, shorter flags width p (conversion_char k) (format_of ds))) all.1,
        append_assoc out written (text_of ds),
      )
      refl

-- `vsprintf` on a written list of directives, with their arguments in front of any others, takes
-- just these arguments and writes the text that the directives stand for, one after the other, from
-- the start of the buffer; it returns the length of that text and changes no memory. The texts among
-- the arguments stand in memory, a width does not start with a zero, and widths and precisions are
-- below 2^31.
pub vsprintf-text_of :
    (ds : List Directive) (rest : List ℕ) (m : ℕ → ℕ)
    → All (IsDirective m) ds
    → vsprintf (format_of ds) (printer [] (args_of ds ++ rest) m)
      ≡ ok (length (text_of ds)) (printer (text_of ds) rest m)
unfolding vsprintf
vsprintf-text_of ds rest m all =
    rw (vsprintf_from-text_of (length (format_of ds)) ds [] rest m (omega arith) all) refl
