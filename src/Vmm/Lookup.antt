-- ===== src/Vmm/Lookup.antt =====
-- What `get_mapping` finds after `map` and after `unmap`.
use native.Mathlib.Decide.{ℕ_discrete}
use bit_simple_kernel.Prelude.{
  ℕ, ◌*◌, ◌/◌, ◌^◌, ◌<◌, ◌≡◌, ◌∙◌, sym, ap, ◌≢◌, arith, ◌⊎◌, refl, Bool, true, false, none, some,
  ◌==◌, if◌then◌else◌, Returns, Returns-mono,
}
use bit_simple_kernel.Vmm.{Machine, table_of, pgd_index, map, unmap, get_mapping, store}
use bit_simple_kernel.Vmm.Index.{mask_lem}
use bit_simple_kernel.Vmm.Space.{
  IsSpace, entry_at, entry_address, stored_self, stored_other, stored-IsSpace,
}
use bit_simple_kernel.Vmm.Map.{IsReady, entry_of, map-Maps}

-- With a pointer for the result, `get_mapping` gives the page of a nonzero entry.
pub get_mapping-pa :
    (pgd va : ℕ) (s : Machine)
    → IsSpace s.mem pgd
    → (get_mapping pgd va true s).pa ≡ (
        if entry_at s.mem pgd va == 0 then none else some (entry_at s.mem pgd va / 2 ^ 12 * 2 ^ 12))
unfolding get_mapping
get_mapping-pa pgd va s sp =
    ground (arith, mask_lem (s.mem (entry_address s.mem pgd va)) (sp.words _))

get_mapping-entry :
    (pgd va : ℕ) (has_pa : Bool) (s : Machine)
    → IsSpace s.mem pgd
    → entry_at s.mem pgd va ≢ 0
    → get_mapping pgd va has_pa s ≡ (
        if has_pa
        then record { ret = some 1; pa = some (entry_at s.mem pgd va / 2 ^ 12 * 2 ^ 12) }
        else record { ret = some 0; pa = none })
unfolding get_mapping
get_mapping-entry pgd va true s sp h =
    ground (arith, mask_lem (s.mem (entry_address s.mem pgd va)) (sp.words _))
get_mapping-entry pgd va false s sp h = ground arith

same_pa :
    (pgd vb : ℕ) (s t : Machine)
    → IsSpace s.mem pgd
    → IsSpace t.mem pgd
    → entry_at t.mem pgd vb ≡ entry_at s.mem pgd vb
    → (get_mapping pgd vb true t).pa ≡ (get_mapping pgd vb true s).pa
same_pa pgd vb s t sp tp e =
    get_mapping-pa pgd vb t tp
    ∙ ap (λ (x : ℕ). if x == 0 then none else some (x / 2 ^ 12 * 2 ^ 12)) e
    ∙ sym (get_mapping-pa pgd vb s sp)

-- After `map` of `va` to `pa`, with a nonzero entry, `get_mapping` with a pointer returns 1 and the
-- page of `pa` for `va`, and finds for every address of another page what it found before. With a
-- null pointer it returns 0 for `va`, although `va` is mapped.
pub map-get_mapping :
    (pgd va pa flags : ℕ) (s : Machine)
    → va < 2 ^ 32
    → pa < 2 ^ 32
    → flags < 2 ^ 12
    → entry_of pa flags ≢ 0
    → IsReady s pgd
    → (table_of s.mem pgd (pgd_index va) ≢ 0) ⊎ (0 < s.pmm.stack_top)
    → Returns
        (λ _ t.
          (get_mapping pgd va true t ≡ record { ret = some 1; pa = some (pa / 2 ^ 12 * 2 ^ 12) })
          × (get_mapping pgd va false t ≡ record { ret = some 0; pa = none })
          × ((vb : ℕ)
              → vb < 2 ^ 32
              → va / 2 ^ 12 ≢ vb / 2 ^ 12
              → (get_mapping pgd vb true t).pa ≡ (get_mapping pgd vb true s).pa))
        (map pgd va pa flags s)
map-get_mapping pgd va pa flags s hv hp hf ne ready enough =
    Returns-mono (map pgd va pa flags s)
      (λ _ t m. (
        get_mapping-entry pgd va true t m.space (rw m.here ne)
            ∙ ap (λ (x : ℕ). record { ret = some 1; pa = some x })
                (ap (λ (x : ℕ). x / 2 ^ 12 * 2 ^ 12) m.here ∙ omega arith),
        get_mapping-entry pgd va false t m.space (rw m.here ne),
        λ vb h d. same_pa pgd vb s t ready.space m.space (m.others vb h d),
      ))
      (map-Maps pgd va pa flags hv hp hf s ready enough)

-- Where there is a table, `unmap` clears the entry.
pub unmap-store :
    (pgd va : ℕ) (s : Machine)
    → table_of s.mem pgd (pgd_index va) ≢ 0
    → unmap pgd va s ≡ store (entry_address s.mem pgd va) 0 s
unfolding unmap
unmap-store pgd va s has = ground arith

-- After `unmap` of `va` there is no mapping for `va`, `get_mapping` finds for every address of
-- another page what it found before, and the page tables are still apart.
pub unmap-get_mapping :
    (pgd va : ℕ) (s : Machine)
    → va < 2 ^ 32
    → IsSpace s.mem pgd
    → let t = unmap pgd va s in
      IsSpace t.mem pgd
      × ((get_mapping pgd va true t).pa ≡ none)
      × ((vb : ℕ)
          → vb < 2 ^ 32
          → va / 2 ^ 12 ≢ vb / 2 ^ 12
          → (get_mapping pgd vb true t).pa ≡ (get_mapping pgd vb true s).pa)
unmap-get_mapping pgd va s hv sp = elim (ℕ_discrete (table_of s.mem pgd (pgd_index va)) 0) [
  | yes z ↦ rw (unmap-none z) (sp, get_mapping-pa pgd va s sp ∙ ground arith, λ vb h d. refl)
  | no has ↦ rw (unmap-store pgd va s has) (
    stored-IsSpace s.mem pgd sp va hv has 0 (omega arith),
    get_mapping-pa pgd va (cleared) (stored-IsSpace s.mem pgd sp va hv has 0 (omega arith))
        ∙ rw (stored_self s.mem pgd sp va hv has 0) refl,
    λ vb h d.
        same_pa pgd vb s cleared sp (stored-IsSpace s.mem pgd sp va hv has 0 (omega arith))
          (stored_other s.mem pgd sp va hv has 0 vb h d),
  )
]
  where
    cleared : Machine
    cleared = store (entry_address s.mem pgd va) 0 s

    unmap-none : table_of s.mem pgd (pgd_index va) ≡ 0 → unmap pgd va s ≡ s
    unmap-none z = unfold unmap in ground arith
