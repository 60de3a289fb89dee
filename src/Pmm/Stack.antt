-- ===== src/Pmm/Stack.antt =====
-- The pages of `pmm_stack`, latest first, and the two operations on them.
use native.Mathlib.Numerals.{add-one}
use bit_simple_kernel.Prelude.{
  ℕ, zero, suc, ◌-◌, ◌<◌, ◌≡◌, ◌∙◌, refl, ap, ap₂, ◌≢◌, ◌==◌, write, write_self, write_ne,
  if◌then◌else◌, Option, none, some, List, [], ◌∷◌, Run, ok, panic, fault, out_of_fuel, and_then,
  arith, length,
}
use bit_simple_kernel.Pmm.{Pmm, page_max_size, pmm_alloc_page, pmm_free_page}

abbrev pub entries : (ℕ → ℕ) → ℕ → List ℕ
entries a zero = []
entries a (suc n) = a (suc n) ∷ entries a n

-- The free pages, the next one to be given out first.
abbrev pub free_pages : Pmm → List ℕ
free_pages s = entries s.stack s.stack_top

pub length-entries : (a : ℕ → ℕ) (n : ℕ) → length (entries a n) ≡ n
length-entries a zero = refl
length-entries a (suc n) = omega (arith, length-entries a n)

entries-write : (a : ℕ → ℕ) (i v n : ℕ) → n < i → entries (write a i v) n ≡ entries a n
entries-write a i v zero h = refl
entries-write a i v (suc n) h =
    ap₂ ◌∷◌ (write_ne a i v (suc n) (omega arith)) (entries-write a i v n (omega arith))

pub entries-push : (a : ℕ → ℕ) (n v : ℕ) → entries (write a (suc n) v) (suc n) ≡ v ∷ entries a n
entries-push a n v = ap₂ ◌∷◌ (write_self a (suc n) v) (entries-write a (suc n) v n (omega arith))

-- What a caller learns of a run: the result and the free pages afterwards.
abbrev pub outcome : {A : Type 0} → Run Pmm A → Option (A × List ℕ)
outcome (ok a s) = some (a, free_pages s)
outcome (panic p) = none
outcome fault = none
outcome out_of_fuel = none

-- The stack of pages as a list: take the first one.
abbrev pub take_first : List ℕ → Option (ℕ × List ℕ)
take_first [] = none
take_first (p ∷ ps) = some (p, ps)

-- The state after a successful call of each operation.
abbrev pub popped : Pmm → Pmm
popped s = record s { stack_top = s.stack_top - 1 }

abbrev pub pushed : ℕ → Pmm → Pmm
pushed p s = record s { stack = write s.stack (suc s.stack_top) p; stack_top = suc s.stack_top }

pub alloc_page-ok :
    (s : Pmm) → 0 < s.stack_top → pmm_alloc_page s ≡ ok (s.stack s.stack_top) (popped s)
unfolding pmm_alloc_page
alloc_page-ok s h = ground arith

pub free_page-ok :
    (p : ℕ) (s : Pmm) → s.stack_top ≢ page_max_size → pmm_free_page p s ≡ ok tt (pushed p s)
unfolding pmm_free_page
free_page-ok p s h = ground (arith, add-one s.stack_top)

alloc_at_top :
    (a : ℕ → ℕ) (n c : ℕ)
    → outcome (pmm_alloc_page (record { stack = a; stack_top = n; phy_page_count = c }))
      ≡ take_first (entries a n)
unfolding pmm_alloc_page
alloc_at_top a zero c = refl
alloc_at_top a (suc n) c =
    let s : Pmm = record { stack = a; stack_top = suc n; phy_page_count = c } in
    rw (alloc_page-ok s (omega arith))
      (ap (λ (k : ℕ). take_first (a (suc n) ∷ entries a k)) (omega arith))

-- `pmm_alloc_page` gives out the page that was freed last and keeps the others in order, and
-- stops exactly when no page is free.
pub pmm_alloc_page_refines : (s : Pmm) → outcome (pmm_alloc_page s) ≡ take_first (free_pages s)
pmm_alloc_page_refines s = alloc_at_top s.stack s.stack_top s.phy_page_count

-- `pmm_free_page` puts the page in front of the free pages, and stops exactly when the stack is
-- full.
pub pmm_free_page_refines :
    (p : ℕ) (s : Pmm)
    → outcome (pmm_free_page p s)
      ≡ (if length (free_pages s) == page_max_size then none else some (tt, p ∷ free_pages s))
unfolding pmm_free_page
pmm_free_page_refines p s =
    rw (length-entries s.stack s.stack_top, add-one)
      (ground (arith, entries-push s.stack s.stack_top p))

-- The stack is a list of free pages. `pmm_alloc_page` gives out the first page of the list and keeps
-- the others in order, and stops exactly when there is none; `pmm_free_page` puts the page in front,
-- and stops exactly when the stack is full.
pub pmm-refines :
    (p : ℕ) (s : Pmm)
    → (outcome (pmm_alloc_page s) ≡ take_first (free_pages s))
      × (outcome (pmm_free_page p s)
          ≡ (if length (free_pages s) == page_max_size then none else some (tt, p ∷ free_pages s)))
pmm-refines p s = (pmm_alloc_page_refines s, pmm_free_page_refines p s)

-- A page that is freed is the next one to be given out, and the free pages are then as before.
pub free_page-alloc_page :
    (p : ℕ) (s : Pmm)
    → s.stack_top < page_max_size
    → outcome (and_then (pmm_free_page p s) λ _ s₁. pmm_alloc_page s₁) ≡ some (p, free_pages s)
free_page-alloc_page p s h =
    rw (free_page-ok p s (omega arith))
      (pmm_alloc_page_refines (pushed p s) ∙ ap take_first (entries-push s.stack s.stack_top p))
