-- ===== src/Printk/Loop.antt =====
-- The loop of `vsprintf` in src/kernel/debug/printk.c passes a character of the format in each round.
use bit_simple_kernel.Prelude.{
  ℕ, zero, suc, ◌+◌, ◌-◌, ◌*◌, ◌^◌, ◌≤◌, ◌==◌, ◌||◌, leb, ◌≡◌, ◌≢◌, refl, if◌then◌else◌, List, [],
  ◌∷◌, ◌++◌, length, true, Bool-cases, inl, inr, Run, ok, panic, fault, out_of_fuel, Cmd, and_then,
  pure, arith, Option, some,
}
use bit_simple_kernel.Printk.{
  Flags, no_flags, Printer, is_digit, skip_atoi, skip_flags, Width, Precision, take_arg, next_arg,
  width_of, get_width, dot_precision, get_precision, skip_qualifier, convert, convert_at,
  conversion, vsprintf_from,
}
use bit_simple_kernel.Printk.Ends.{Within, Ends, Ends-ne, Within-bind, convert-Halts}

-- Continuations that agree on such results agree behind the run.
and_then-Within :
    {A B : Type 0} (size : A → ℕ) (n : ℕ) (r : Run Printer A) (f g : A → Cmd Printer B)
    → Within size n r
    → ((a : A) (t : Printer) → size a ≤ n → f a t ≡ g a t)
    → and_then r f ≡ and_then r g
and_then-Within size n (ok a s) f g h same = same a s h
and_then-Within size n (panic p) f g h same = refl
and_then-Within size n fault f g h same = refl
and_then-Within size n out_of_fuel f g h same = refl

-- Behind a run that ends, a result is as long as it is.
then-Within :
    {A : Type 0} (r : Run Printer A) (f : List ℕ)
    → Ends r
    → Within length (length f) (and_then r (λ _. pure f))
then-Within (ok a s) f h = omega arith
then-Within (panic p) f h = tt
then-Within fault f h = tt
then-Within out_of_fuel f h = h

skip_atoi-length : (i : ℕ) (s : List ℕ) → length (skip_atoi i s).1 ≤ length s
unfolding skip_atoi
skip_atoi-length i [] = omega arith
skip_atoi-length i (c ∷ s) = elim (Bool-cases (is_digit c)) [
  | inl e ↦ rw e (omega (arith, skip_atoi-length (i * 10 + c - b'0') s))
  | inr e ↦ rw e (omega arith)
]

skip_flags-length : (flags : Flags) (f : List ℕ) → length (skip_flags flags f).1 ≤ length f
unfolding skip_flags
skip_flags-length flags [] = omega arith
skip_flags-length flags (c ∷ f) = ground (
  arith,
  skip_flags-length (record flags { left = true }) f,
  skip_flags-length (record flags { plus = true }) f,
  skip_flags-length (record flags { space = true }) f,
  skip_flags-length (record flags { special = true }) f,
  skip_flags-length (record flags { zeropad = true }) f,
)

abbrev width_size : Width → ℕ
width_size w = length w.format

abbrev precision_size : Precision → ℕ
precision_size p = length p.format

-- A run that takes an argument and computes the rest from it.
arg-Within :
    {A : Type 0} (size : A → ℕ) (n : ℕ) (f : ℕ → A) (s : Printer)
    → ((a : ℕ) → size (f a) ≤ n)
    → Within size n (and_then (next_arg s) (λ a. pure (f a)))
unfolding take_arg
arg-Within size n f s h = taken s.args
  where
    taken : (args : List ℕ) → Within size n (and_then (take_arg args s) (λ a. pure (f a)))
    taken [] = tt
    taken (a ∷ rest) = h a

width_of-length :
    (flags : Flags) (f : List ℕ) (a : ℕ) → length (width_of flags f a).format ≤ length f
unfolding width_of
width_of-length flags f a = elim (Bool-cases (leb (2 ^ 31) a)) [
  | inl e ↦ rw e (omega arith)
  | inr e ↦ rw e (omega arith)
]

get_width-Within :
    (flags : Flags) (f : List ℕ) (s : Printer) → Within width_size (length f) (get_width flags f s)
unfolding get_width
get_width-Within flags [] s = omega arith
get_width-Within flags (c ∷ f) s = elim (Bool-cases (is_digit c)) [
  | inl e ↦ rw e (skip_atoi-length 0 (c ∷ f))
  | inr e ↦ rw e (elim (Bool-cases (c == b'*')) [
    | inl star ↦ rw star (
        arg-Within width_size (length (c ∷ f)) (λ a. width_of flags (c ∷ f) a) s
          (λ a. width_of-length flags (c ∷ f) a))
    | inr other ↦ rw other (omega arith)
  ])
]

dot_precision-Within :
    (f : List ℕ) (s : Printer) → Within precision_size (length f) (dot_precision f s)
unfolding dot_precision
dot_precision-Within [] s = omega arith
dot_precision-Within (c ∷ f) s = elim (Bool-cases (is_digit c)) [
  | inl e ↦ rw e (skip_atoi-length 0 (c ∷ f))
  | inr e ↦ rw e (elim (Bool-cases (c == b'*')) [
    | inl star ↦ rw star (
        arg-Within precision_size (length (c ∷ f))
          (λ a. record { precision = some (if leb (2 ^ 31) a then 0 else a); format = c ∷ f }) s
          (λ a. omega arith))
    | inr other ↦ rw other (omega arith)
  ])
]

Within-mono :
    {A : Type 0} (size : A → ℕ) (n k : ℕ) (r : Run Printer A)
    → n ≤ k
    → Within size n r
    → Within size k r
Within-mono size n k (ok a s) h w = omega (arith, w)
Within-mono size n k (panic p) h w = tt
Within-mono size n k fault h w = tt
Within-mono size n k out_of_fuel h w = w

get_precision-Within :
    (f : List ℕ) (s : Printer) → Within precision_size (length f) (get_precision f s)
unfolding get_precision
get_precision-Within [] s = omega arith
get_precision-Within (c ∷ f) s = elim (Bool-cases (c == b'.')) [
  | inl e ↦ rw e (
      Within-mono precision_size (length f) (length (c ∷ f)) (dot_precision f s) (omega arith)
        (dot_precision-Within f s))
  | inr e ↦ rw e (omega arith)
]

skip_qualifier-length : (f : List ℕ) → length (skip_qualifier f) ≤ length f
unfolding skip_qualifier
skip_qualifier-length [] = omega arith
skip_qualifier-length (c ∷ f) = elim (Bool-cases (c == b'h' || c == b'l' || c == b'L')) [
  | inl e ↦ rw e (omega arith)
  | inr e ↦ rw e (omega arith)
]

convert_at-Within :
    (flags : Flags) (width precision : Option ℕ) (f : List ℕ) (s : Printer)
    → Within length (length f) (convert_at flags width precision f s)
unfolding convert_at
convert_at-Within flags width precision [] s = omega arith
convert_at-Within flags width precision (c ∷ f) s =
    Within-mono length (length f) (length (c ∷ f))
      (and_then (convert flags width precision c s) (λ _. pure f)) (omega arith)
      (then-Within (convert flags width precision c s) f
        ((convert-Halts flags width precision c).ends s))

-- A conversion goes on behind where it starts.
conversion-Within : (f : List ℕ) (s : Printer) → Within length (length f) (conversion f s)
unfolding conversion
conversion-Within f s =
    let flags = skip_flags no_flags f in
    Within-bind width_size length (length f) (length f) (get_width flags.0 flags.1 s) _
      (Within-mono width_size (length flags.1) (length f) (get_width flags.0 flags.1 s)
        (skip_flags-length no_flags f) (get_width-Within flags.0 flags.1 s))
      (λ w t h.
        Within-bind precision_size length (length f) (length f) (get_precision w.format t) _
          (Within-mono precision_size (length w.format) (length f) (get_precision w.format t) h
            (get_precision-Within w.format t))
          (λ p u g.
            Within-mono length (length (skip_qualifier p.format)) (length f)
              (convert_at w.flags w.width p.precision (skip_qualifier p.format) u)
              (omega (arith, skip_qualifier-length p.format, g))
              (convert_at-Within w.flags w.width p.precision (skip_qualifier p.format) u)))

vsprintf_from_enough :
    (n k : ℕ) (f : List ℕ) (s : Printer)
    → length f ≤ n
    → length f ≤ k
    → vsprintf_from n f s ≡ vsprintf_from k f s
unfolding vsprintf_from
vsprintf_from_enough n k [] s h g = refl
vsprintf_from_enough zero k (c ∷ f) s h g = absurd (omega arith)
vsprintf_from_enough (suc n) zero (c ∷ f) s h g = absurd (omega arith)
vsprintf_from_enough (suc n) (suc k) (c ∷ f) s h g = elim (Bool-cases (c == b'%')) [
  | inl e ↦ rw e (
      and_then-Within length (length f) (conversion f s) (λ rest. vsprintf_from n rest)
        (λ rest. vsprintf_from k rest) (conversion-Within f s)
        (λ rest t l. vsprintf_from_enough n k rest t (omega (arith, h)) (omega (arith, g))))
  | inr e ↦
      rw e (
        vsprintf_from_enough n k f (record s { out = s.out ++ c ∷ [] }) (omega arith) (omega arith))
]

vsprintf_from-Ends : (n : ℕ) (f : List ℕ) (s : Printer) → length f ≤ n → Ends (vsprintf_from n f s)
unfolding vsprintf_from
vsprintf_from-Ends n [] s h = omega arith
vsprintf_from-Ends zero (c ∷ f) s h = absurd (omega arith)
vsprintf_from-Ends (suc n) (c ∷ f) s h = elim (Bool-cases (c == b'%')) [
  | inl e ↦ rw e (
      Within-bind length (λ _. 0) (length f) 0 (conversion f s) (λ rest. vsprintf_from n rest)
        (conversion-Within f s) (λ rest t l. vsprintf_from-Ends n rest t (omega (arith, h))))
  | inr e ↦ rw e (vsprintf_from-Ends n f (record s { out = s.out ++ c ∷ [] }) (omega arith))
]

-- The loop of `vsprintf` ends on every format, whatever its arguments and the memory: as many rounds
-- as the format has characters are never used up, and any number of rounds from there on does the
-- same.
pub vsprintf_from-ends :
    (n : ℕ) (f : List ℕ) (s : Printer)
    → length f ≤ n
    → (vsprintf_from n f s ≢ out_of_fuel) × (vsprintf_from n f s ≡ vsprintf_from (length f) f s)
vsprintf_from-ends n f s h = (
  Ends-ne (vsprintf_from n f s) (vsprintf_from-Ends n f s h),
  vsprintf_from_enough n (length f) f s h (omega arith),
)
