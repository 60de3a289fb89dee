-- ===== src/Printk/Ends.antt =====
-- The conversions of `vsprintf` in src/kernel/debug/printk.c end.
use bit_simple_kernel.Prelude.{
  ℕ, ◌≤◌, ◌≢◌, if◌then◌else◌, List, [], ◌∷◌, Bool, true, false, Run, ok, panic, fault, out_of_fuel,
  Cmd, and_then, arith, Option, none, some,
}
use bit_simple_kernel.Strings.{strlen}
use bit_simple_kernel.Printk.{
  put_char, put_string, put_number, put_pointer, put_or_fault, store_count, measured, put,
  string_fuel, Flags, Printer, take_arg, next_arg, convert,
}

-- A run that ends: with a result whose size is at most `n`, or with a panic or a fault.
abbrev pub Within : {A : Type 0} → (A → ℕ) → ℕ → Run Printer A → Type 0
Within size n (ok a s) = size a ≤ n
Within size n (panic p) = Unit
Within size n fault = Unit
Within size n out_of_fuel = ⊥

abbrev pub Ends : {A : Type 0} → Run Printer A → Type 0
Ends r = Within (λ _. 0) 0 r

pub Ends-ne : {A : Type 0} (r : Run Printer A) → Ends r → r ≢ out_of_fuel
Ends-ne (ok a s) h e = absurd (cc)
Ends-ne (panic p) h e = absurd (cc)
Ends-ne fault h e = absurd (cc)
Ends-ne out_of_fuel h e = h

pub Within-bind :
    {A B : Type 0} (size : A → ℕ) (size' : B → ℕ) (n k : ℕ) (r : Run Printer A)
    (f : A → Cmd Printer B)
    → Within size n r
    → ((a : A) (t : Printer) → size a ≤ n → Within size' k (f a t))
    → Within size' k (and_then r f)
Within-bind size size' n k (ok a s) f h g = g a s h
Within-bind size size' n k (panic p) f h g = tt
Within-bind size size' n k fault f h g = tt
Within-bind size size' n k out_of_fuel f h g = h

Ends-bind :
    {A B : Type 0} (r : Run Printer A) (f : A → Cmd Printer B)
    → Ends r
    → ((a : A) (t : Printer) → Ends (f a t))
    → Ends (and_then r f)
Ends-bind r f h g = Within-bind (λ _. 0) (λ _. 0) 0 0 r f h (λ a t l. g a t)

-- A command that ends whatever the state is.
pub record Halts (f : Cmd Printer (Unit {0})) : Type 0 where
  pub ends : (s : Printer) → Ends (f s)

Halts-if :
    (c : Bool) {f g : Cmd Printer (Unit {0})} → Halts f → Halts g → Halts (if c then f else g)
Halts-if true h k = h
Halts-if false h k = k

take_arg-Ends : (args : List ℕ) (s : Printer) → Ends (take_arg args s)
unfolding take_arg
take_arg-Ends [] s = tt
take_arg-Ends (a ∷ rest) s = omega arith

measured-Ends : (n : Option ℕ) (s : Printer) → Ends (measured n s)
measured-Ends none s = tt
measured-Ends (some n) s = omega arith

put_or_fault-Ends : (text : Option (List ℕ)) (s : Printer) → Ends (put_or_fault text s)
put_or_fault-Ends none s = tt
put_or_fault-Ends (some text) s = omega arith

put_char-Ends : (flags : Flags) (width : Option ℕ) (s : Printer) → Ends (put_char flags width s)
unfolding put_char
put_char-Ends flags width s = Ends-bind (next_arg s) _ (take_arg-Ends s.args s) (λ a t. omega arith)

put_string-Ends :
    (flags : Flags) (width precision : Option ℕ) (s : Printer)
    → Ends (put_string flags width precision s)
unfolding put_string
put_string-Ends flags width precision s = Ends-bind (next_arg s) _ (take_arg-Ends s.args s) (λ a t.
    Ends-bind (measured (strlen string_fuel a t.mem) t) _
      (measured-Ends (strlen string_fuel a t.mem) t) (λ n u. omega arith))

put_number-Ends :
    (base : ℕ) (width precision : Option ℕ) (flags : Flags) (s : Printer)
    → Ends (put_number base width precision flags s)
unfolding put_number
put_number-Ends base width precision flags s =
    Ends-bind (next_arg s) _ (take_arg-Ends s.args s) (λ a t. put_or_fault-Ends _ t)

put_pointer-Ends :
    (flags : Flags) (width precision : Option ℕ) (s : Printer)
    → Ends (put_pointer flags width precision s)
unfolding put_pointer
put_pointer-Ends flags none precision s = put_number-Ends 16 (some 8) precision _ s
put_pointer-Ends flags (some w) precision s = put_number-Ends 16 (some w) precision flags s

store_count-Ends : (s : Printer) → Ends (store_count s)
unfolding store_count
store_count-Ends s = Ends-bind (next_arg s) _ (take_arg-Ends s.args s) (λ a t. omega arith)

number-Halts :
    (base : ℕ) (width precision : Option ℕ) (flags : Flags)
    → Halts (put_number base width precision flags)
number-Halts base width precision flags = record {
  ends = λ s. put_number-Ends base width precision flags s;
}

put-Halts : (text : List ℕ) → Halts (put text)
put-Halts text = record { ends = λ s. omega arith }

-- Every conversion ends.
pub convert-Halts :
    (flags : Flags) (width precision : Option ℕ) (c : ℕ) → Halts (convert flags width precision c)
unfolding convert
convert-Halts flags width precision c =
    Halts-if _ (record { ends = λ s. put_char-Ends flags width s })
      (Halts-if _ (record { ends = λ s. put_string-Ends flags width precision s })
        (Halts-if _ (number-Halts 8 width precision flags) (
          Halts-if _ (record { ends = λ s. put_pointer-Ends flags width precision s })
            (Halts-if _ (number-Halts 16 width precision (record flags { small = true })) (
              Halts-if _ (number-Halts 16 width precision flags) (
                Halts-if _ (number-Halts 10 width precision (record flags { sign = true })) (
                  Halts-if _ (number-Halts 10 width precision flags) (
                    Halts-if _ (number-Halts 2 width precision flags) (
                      Halts-if _ (record { ends = λ s. store_count-Ends s })
                        (Halts-if _ (put-Halts (c ∷ [])) (put-Halts (b'%' ∷ c ∷ []))))))))))))
