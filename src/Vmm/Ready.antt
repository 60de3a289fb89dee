-- ===== src/Vmm/Ready.antt =====
-- `map` keeps the free pages fit to become tables.
use native.Mathlib.Decide.{ℕ_discrete}
use bit_simple_kernel.Prelude.{
  ℕ, ◌+◌, ◌-◌, ◌^◌, ◌≤◌, ◌<◌, ◌≡◌, sym, ap, ◌≢◌, arith, ◌⊎◌, inl, inr, Returns, Returns-mono,
}
use bit_simple_kernel.Vmm.{Machine, table_of, pgd_index, map}
use bit_simple_kernel.Vmm.Table.{IsFresh}
use bit_simple_kernel.Vmm.Map.{IsReady, Maps, map-Maps}

module _ (s : Machine) (pgd va pa flags : ℕ) (t : Machine) (ready : IsReady s pgd)
    (m : Maps s pgd va pa flags t) where
  -- A table after `map` was one before, or is the page that was taken.
  table-cases :
      (i : ℕ)
      → i < 1024
      → (table_of t.mem pgd i ≡ table_of s.mem pgd i)
        ⊎ (0 < s.pmm.stack_top)
          × (t.pmm.stack_top ≡ s.pmm.stack_top - 1)
          × (table_of t.mem pgd i ≡ s.pmm.stack s.pmm.stack_top)
  table-cases i h = elim (ℕ_discrete i (pgd_index va)) [
    | yes e ↦
        rw e (elim m.uses [ inl u ↦ inl u.1 | inr u ↦ inr (u.0, ap (λ q. q.stack_top) u.1, u.2) ])
    | no ne ↦ inl (m.tables i h ne)
  ]

  pub stack_kept : t.pmm.stack ≡ s.pmm.stack
  stack_kept = elim m.uses [ inl u ↦ ap (λ q. q.stack) u.0 | inr u ↦ ap (λ q. q.stack) u.1 ]

  pub top_falls : t.pmm.stack_top ≤ s.pmm.stack_top
  top_falls = elim m.uses [
    | inl u ↦ omega (arith, ap (λ q. q.stack_top) u.0)
    | inr u ↦ omega (arith, ap (λ q. q.stack_top) u.1)
  ]

  -- A page that is fit to become a table and is not taken stays so.
  pub keeps-IsFresh :
      (q : ℕ)
      → IsFresh s.mem pgd q
      → (0 < s.pmm.stack_top → s.pmm.stack s.pmm.stack_top ≢ q)
      → IsFresh t.mem pgd q
  keeps-IsFresh q f ne = record {
    aligned = f.aligned;
    small = f.small;
    ne_zero = f.ne_zero;
    off_dir = f.off_dir;
    unused = λ i small. elim (table-cases i small) [
      | inl same ↦ rw same (f.unused i small)
      | inr taken ↦ rw taken.2 (ne taken.0)
    ];
  }

  -- What the call took from the stack is not among the pages that are left.
  still-IsFresh : (k : ℕ) → 0 < k → k ≤ t.pmm.stack_top → IsFresh t.mem pgd (s.pmm.stack k)
  still-IsFresh k pos h =
      let f = ready.fresh k pos (omega (arith, top_falls)) in
      record {
        aligned = f.aligned;
        small = f.small;
        ne_zero = f.ne_zero;
        off_dir = f.off_dir;
        unused = λ i small. elim (table-cases i small) [
          | inl same ↦ rw same (f.unused i small)
          | inr taken ↦ rw taken.2 (λ e.
              ready.distinct k s.pmm.stack_top pos (omega (arith, taken.1)) (omega arith) (sym e))
        ];
      }

  -- At most one page is taken.
  pub top-le : s.pmm.stack_top ≤ t.pmm.stack_top + 1
  top-le = elim m.uses [
    | inl u ↦ omega (arith, ap (λ q. q.stack_top) u.0)
    | inr u ↦ omega (arith, ap (λ q. q.stack_top) u.1)
  ]

  -- After `map` the free pages are still different pages that may become tables.
  pub Maps-IsReady : IsReady t pgd
  Maps-IsReady = record {
    space = m.space;
    linear_tables = λ i small. elim (table-cases i small) [
      | inl same ↦ rw same (ready.linear_tables i small)
      | inr taken ↦ rw taken.2 (ready.linear_pages s.pmm.stack_top taken.0 (omega arith))
    ];
    linear_pages = λ k pos h. rw stack_kept (ready.linear_pages k pos (omega (arith, top_falls)));
    fresh = λ k pos h. rw stack_kept (still-IsFresh k pos h);
    distinct = λ j k pos lt h. rw stack_kept (ready.distinct j k pos lt (omega (arith, top_falls)));
  }

-- `map` keeps the tables and the free pages apart: the free pages are still different pages that
-- are neither the directory nor a table, and all lie in the linear map, so that each free page may
-- become the next table.
pub map-IsReady :
    (pgd va pa flags : ℕ) (s : Machine)
    → va < 2 ^ 32
    → pa < 2 ^ 32
    → flags < 2 ^ 12
    → IsReady s pgd
    → (table_of s.mem pgd (pgd_index va) ≢ 0) ⊎ (0 < s.pmm.stack_top)
    → Returns (λ _ t. IsReady t pgd) (map pgd va pa flags s)
map-IsReady pgd va pa flags s hv hp hf ready enough =
    Returns-mono (map pgd va pa flags s) (λ _ t m. Maps-IsReady s pgd va pa flags t ready m)
      (map-Maps pgd va pa flags hv hp hf s ready enough)
