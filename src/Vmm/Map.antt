-- ===== src/Vmm/Map.antt =====
-- What `map`, `unmap` and `get_mapping` do to the translation of addresses.
use native.Mathlib.Decide.{ℕ_discrete}
use bit_simple_kernel.Prelude.{
  ℕ, ◌+◌, ◌*◌, ◌/◌, ◌^◌, ◌≤◌, ◌<◌, ◌≡◌, ◌∙◌, refl, ◌↔◌, ◌⊎◌, inl, inr, ◌≢◌, bit_and, bit_or, arith,
  ok, panic, ltb, true, out_of_memory, Returns, and_then, zoom-ok,
}
use bit_simple_kernel.Pmm.{pmm_alloc_page}
use bit_simple_kernel.Pmm.Stack.{popped, alloc_page-ok}
use bit_simple_kernel.Vmm.{
  page_mask, linear_size, pgd_index, pte_index, table_of, Machine, new_table, set_entry, map,
  on_pmm,
}
use bit_simple_kernel.Vmm.Index.{mask_lem, flags_lem}
use bit_simple_kernel.Vmm.Space.{
  IsSpace, entry_at, kernel_of, pgd_index-lt, stored-table, stored_self, stored_other,
  stored-IsSpace,
}
use bit_simple_kernel.Vmm.Table.{
  IsFresh, extended-table_self, extended-table_other, extended-entry, extended-IsSpace,
}

-- The memory is a space whose tables lie in the linear map, and the free pages are different pages
-- that are neither the directory nor a table.
pub record IsStocked (s : Machine) (pgd : ℕ) : Type 0 where
  pub space : IsSpace s.mem pgd
  pub linear_tables : (i : ℕ) → i < 1024 → table_of s.mem pgd i < linear_size
  pub fresh : (k : ℕ) → 0 < k → k ≤ s.pmm.stack_top → IsFresh s.mem pgd (s.pmm.stack k)
  pub distinct : (j k : ℕ) → 0 < j → j < k → k ≤ s.pmm.stack_top → s.pmm.stack j ≢ s.pmm.stack k

-- The same, with free pages that lie in the linear map, so that each of them may become a table.
pub record IsReady (s : Machine) (pgd : ℕ) : Type 0 where
  pub space : IsSpace s.mem pgd
  pub linear_tables : (i : ℕ) → i < 1024 → table_of s.mem pgd i < linear_size
  pub linear_pages : (k : ℕ) → 0 < k → k ≤ s.pmm.stack_top → s.pmm.stack k < linear_size
  pub fresh : (k : ℕ) → 0 < k → k ≤ s.pmm.stack_top → IsFresh s.mem pgd (s.pmm.stack k)
  pub distinct : (j k : ℕ) → 0 < j → j < k → k ≤ s.pmm.stack_top → s.pmm.stack j ≢ s.pmm.stack k

-- The entry that `map` writes.
abbrev pub entry_of : ℕ → ℕ → ℕ
entry_of pa flags = pa / 2 ^ 12 * 2 ^ 12 + flags

-- What holds after `map`: the page of `va` has the entry, and every other page has the one it had.
pub record Maps (s : Machine) (pgd va pa flags : ℕ) (t : Machine) : Type 0 where
  pub space : IsSpace t.mem pgd
  pub has_table : table_of t.mem pgd (pgd_index va) ≢ 0
  pub uses :
      (t.pmm ≡ s.pmm) × (table_of t.mem pgd (pgd_index va) ≡ table_of s.mem pgd (pgd_index va))
      ⊎ (0 < s.pmm.stack_top)
        × (t.pmm ≡ popped s.pmm)
        × (table_of t.mem pgd (pgd_index va) ≡ s.pmm.stack s.pmm.stack_top)
        × (table_of s.mem pgd (pgd_index va) ≡ 0)
  pub tables : (i : ℕ) → i < 1024 → i ≢ pgd_index va → table_of t.mem pgd i ≡ table_of s.mem pgd i
  pub here : entry_at t.mem pgd va ≡ entry_of pa flags
  pub others :
      (vb : ℕ)
      → vb < 2 ^ 32
      → va / 2 ^ 12 ≢ vb / 2 ^ 12
      → entry_at t.mem pgd vb ≡ entry_at s.mem pgd vb

on_pmm-alloc :
    (s : Machine)
    → 0 < s.pmm.stack_top
    → on_pmm pmm_alloc_page s ≡ ok (s.pmm.stack s.pmm.stack_top) (record s { pmm = popped s.pmm })
on_pmm-alloc s room =
    zoom-ok (λ s. s.pmm) (λ t s. record s { pmm = t }) pmm_alloc_page s (alloc_page-ok s.pmm room)

module _ (pgd va pa flags : ℕ) (va_small : va < 2 ^ 32) (pa_small : pa < 2 ^ 32)
    (flags_small : flags < 2 ^ 12) where
  written : bit_or (bit_and pa page_mask) flags ≡ entry_of pa flags
  written = rw (mask_lem pa pa_small) (flags_lem (pa / 2 ^ 12) flags flags_small)

  -- The store, once there is a table.
  set_entry-Maps :
      (s : Machine)
      → IsSpace s.mem pgd
      → table_of s.mem pgd (pgd_index va) ≢ 0
      → Maps s pgd va pa flags
          (set_entry (kernel_of (table_of s.mem pgd (pgd_index va))) (pte_index va) pa flags s)
  unfolding set_entry
  set_entry-Maps s sp has = rw written (record {
    space = stored-IsSpace s.mem pgd sp va va_small has (entry_of pa flags) (omega arith);
    has_table =
        rw
          (stored-table s.mem pgd sp va va_small has (entry_of pa flags) (pgd_index va)
            (pgd_index-lt va va_small))
          has;
    uses = inl (
      refl,
      stored-table s.mem pgd sp va va_small has (entry_of pa flags) (pgd_index va)
          (pgd_index-lt va va_small),
    );
    tables = λ i h _. stored-table s.mem pgd sp va va_small has (entry_of pa flags) i h;
    here = stored_self s.mem pgd sp va va_small has (entry_of pa flags);
    others = stored_other s.mem pgd sp va va_small has (entry_of pa flags);
  })

  set_entry-table :
      (s : Machine)
      → IsSpace s.mem pgd
      → table_of s.mem pgd (pgd_index va) ≢ 0
      → table_of
          (set_entry (kernel_of (table_of s.mem pgd (pgd_index va))) (pte_index va) pa flags s).mem
          pgd
          (pgd_index va)
        ≡ table_of s.mem pgd (pgd_index va)
  unfolding set_entry
  set_entry-table s sp has =
      stored-table s.mem pgd sp va va_small has _ (pgd_index va) (pgd_index-lt va va_small)

  -- With a table for `va` no page is taken.
  map-table :
      (s : Machine)
      → table_of s.mem pgd (pgd_index va) ≢ 0
      → table_of s.mem pgd (pgd_index va) < linear_size
      → map pgd va pa flags s
        ≡ ok tt
            (set_entry (kernel_of (table_of s.mem pgd (pgd_index va))) (pte_index va) pa flags s)
  unfolding map
  map-table s has near = ground arith

  -- Without one the next free page becomes the table.
  map-page :
      (s : Machine)
      → table_of s.mem pgd (pgd_index va) ≡ 0
      → 0 < s.pmm.stack_top
      → s.pmm.stack s.pmm.stack_top < linear_size
      → let p = s.pmm.stack s.pmm.stack_top in
        map pgd va pa flags s
        ≡ ok tt (
            set_entry
              (kernel_of p)
              (pte_index va)
              pa
              flags
              (new_table pgd (pgd_index va) p (record s { pmm = popped s.pmm })))
  unfolding map
  map-page s none_yet room near =
      let linear : ltb (s.pmm.stack s.pmm.stack_top) linear_size ≡ true = ground (arith, near) in
      rw none_yet (rw (on_pmm-alloc s room, and_then, linear) refl)

  -- `map` stops for lack of memory exactly when it needs a page for a table and no page is free.
  pub map-panic_iff :
      (s : Machine)
      → (map pgd va pa flags s ≡ panic out_of_memory)
        ↔ (table_of s.mem pgd (pgd_index va) ≡ 0) × (s.pmm.stack_top ≡ 0)
  unfolding map pmm_alloc_page
  map-panic_iff s = ground arith

  page-Maps :
      (s : Machine)
      → IsReady s pgd
      → table_of s.mem pgd (pgd_index va) ≡ 0
      → 0 < s.pmm.stack_top
      → let p = s.pmm.stack s.pmm.stack_top in
        Maps s pgd va pa flags (
          set_entry
            (kernel_of p)
            (pte_index va)
            pa
            flags
            (new_table pgd (pgd_index va) p (record s { pmm = popped s.pmm })))
  page-Maps s ready none_yet room = record {
    space = there.space;
    has_table = there.has_table;
    uses = inr (room, same_pmm, kept, none_yet);
    tables = λ i h ne.
        there.tables i h ne
        ∙ extended-table_other s₁ pgd ready.space idx small none_yet p fresh i h ne;
    here = there.here;
    others = λ vb h ne.
        there.others vb h ne ∙ extended-entry s₁ pgd ready.space idx small none_yet p fresh vb h;
  }
    where
      idx : ℕ
      idx = pgd_index va

      small : pgd_index va < 1024
      small = pgd_index-lt va va_small

      p : ℕ
      p = s.pmm.stack s.pmm.stack_top

      s₁ : Machine
      s₁ = record s { pmm = popped s.pmm }

      fresh : IsFresh s.mem pgd p
      fresh = ready.fresh s.pmm.stack_top room (omega arith)

      n : Machine
      n = new_table pgd idx p s₁

      self : table_of n.mem pgd idx ≡ p
      self = extended-table_self s₁ pgd ready.space idx small none_yet p fresh

      same_pmm : (set_entry (kernel_of p) (pte_index va) pa flags n).pmm ≡ popped s.pmm
      same_pmm = unfold set_entry new_table in refl

      kept : table_of (set_entry (kernel_of p) (pte_index va) pa flags n).mem pgd idx ≡ p
      kept = rw self at (
          set_entry-table n (extended-IsSpace s₁ pgd ready.space idx small none_yet p fresh)
            (rw self fresh.ne_zero))

      there : Maps n pgd va pa flags (set_entry (kernel_of p) (pte_index va) pa flags n)
      there = rw self at (
          set_entry-Maps n (extended-IsSpace s₁ pgd ready.space idx small none_yet p fresh)
            (rw self fresh.ne_zero))

  -- Where there is a table for `va` or a free page, and the tables and the free pages lie in the
  -- linear map, `map` returns, gives the page of `va` the entry
  -- of `pa` and `flags`, leaves the entries of all other pages, and keeps the page tables apart. It
  -- takes a free page only for a table that is missing.
  pub map-Maps :
      (s : Machine)
      → IsReady s pgd
      → (table_of s.mem pgd (pgd_index va) ≢ 0) ⊎ (0 < s.pmm.stack_top)
      → Returns (λ _ t. Maps s pgd va pa flags t) (map pgd va pa flags s)
  map-Maps s ready enough = elim (ℕ_discrete (table_of s.mem pgd (pgd_index va)) 0) [
    | yes none_yet ↦
        let room : 0 < s.pmm.stack_top = omega arith in
        rw (map-page s none_yet room (ready.linear_pages s.pmm.stack_top room (omega arith)))
          (page-Maps s ready none_yet room)
    | no has ↦
        rw (map-table s has (ready.linear_tables (pgd_index va) (pgd_index-lt va va_small)))
          (set_entry-Maps s ready.space has)
  ]
