-- ===== src/Prelude/Effects.antt =====
-- Runs of stateful code: a result with the new state, or one of the ways in which the kernel stops.
use mathlib.Core.Bool.{Bool, true, false}
use mathlib.Core.Path.{◌≡◌, refl}

-- The failing `assert` calls; `panic` prints a trace and loops for ever (kernel/debug/debug.c).
pub data Panic : Type 0 where
  out_of_memory pmm_stack_full kmalloc_error no_sched : Panic

-- `fault` is an access outside the mapped memory; `out_of_fuel` is a loop cut short by the model.
pub data Run (S : Type 0) (A : Type 0) : Type 0 where
  ok : A → S → Run S A
  panic : Panic → Run S A
  fault out_of_fuel : Run S A

abbrev pub Cmd : Type 0 → Type 0 → Type 0
Cmd S A = S → Run S A

abbrev pub and_then : {S A B : Type 0} → Run S A → (A → Cmd S B) → Run S B
and_then (ok a s) k = k a s
and_then (panic p) k = panic p
and_then fault k = fault
and_then out_of_fuel k = out_of_fuel

infixl 5 ◌>>=◌ ◌>>◌
abbrev pub ◌>>=◌ : {S A B : Type 0} → Cmd S A → (A → Cmd S B) → Cmd S B
m >>= k = λ s. and_then (m s) k

abbrev pub ◌>>◌ : {S B : Type 0} → Cmd S (Unit {0}) → Cmd S B → Cmd S B
m >> k = m >>= λ _. k

abbrev pub pure : {S A : Type 0} → A → Cmd S A
pure a s = ok a s

-- `assert(b, info)`.
abbrev pub assert : {S : Type 0} → Bool → Panic → Cmd S (Unit {0})
assert true p = λ s. ok tt s
assert false p = λ s. panic p

-- A computation on a part of the state.
abbrev pub zoom : {S T A : Type 0} → (S → T) → (T → S → S) → Cmd T A → Cmd S A
zoom get put m s = elim (m (get s)) [
  | ok a t ↦ ok a (put t s)
  | panic p ↦ panic p
  | fault ↦ fault
  | out_of_fuel ↦ out_of_fuel
]

-- The run gives a result, and result and state satisfy `P`.
abbrev pub Returns : {S A : Type 0} → (A → S → Type 0) → Run S A → Type 0
Returns P (ok a s) = P a s
Returns P (panic p) = ⊥
Returns P fault = ⊥
Returns P out_of_fuel = ⊥

pub Returns-mono :
    {S A : Type 0} {P Q : A → S → Type 0} (r : Run S A)
    → ((a : A) (s : S) → P a s → Q a s)
    → Returns P r
    → Returns Q r
Returns-mono (ok a s) f h = f a s h
Returns-mono (panic p) f h = h
Returns-mono fault f h = h
Returns-mono out_of_fuel f h = h

pub Returns-bind :
    {S A B : Type 0} {P : A → S → Type 0} (Q : B → S → Type 0) (r : Run S A) (k : A → Cmd S B)
    → ((a : A) (s : S) → P a s → Returns Q (k a s))
    → Returns P r
    → Returns Q (and_then r k)
Returns-bind Q (ok a s) k f h = f a s h
Returns-bind Q (panic p) k f h = h
Returns-bind Q fault k f h = h
Returns-bind Q out_of_fuel k f h = h

-- A run that returns, taken apart.
pub Returns-ok :
    {S A : Type 0} {P : A → S → Type 0} (r : Run S A)
    → Returns P r
    → (a : A) × (s : S) × (r ≡ ok a s) × P a s
Returns-ok (ok a s) h = (a, s, refl, h)
Returns-ok (panic p) h = absurd h
Returns-ok fault h = absurd h
Returns-ok out_of_fuel h = absurd h

-- A successful computation on a part of the state.
pub zoom-ok :
    {S T A : Type 0} (get : S → T) (put : T → S → S) (m : Cmd T A) (s : S) {a : A} {t : T}
    → m (get s) ≡ ok a t
    → zoom get put m s ≡ ok a (put t s)
zoom-ok get put m s h = rw (h, zoom)

pub zoom-panic :
    {S T A : Type 0} (get : S → T) (put : T → S → S) (m : Cmd T A) (s : S) {p : Panic}
    → m (get s) ≡ panic p
    → zoom get put m s ≡ panic p
zoom-panic get put m s h = rw (h, zoom) refl
