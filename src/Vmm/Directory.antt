-- ===== src/Vmm/Directory.antt =====
-- The page directory that `init_vmm` sets up is a space: its tables are pages, no two the same.
use bit_simple_kernel.Prelude.{
  ℕ, zero, suc, ◌+◌, ◌-◌, ◌*◌, ◌/◌, ◌%◌, ◌^◌, ◌≤◌, ◌<◌, ◌≡◌, ◌∙◌, ap, sym, arith, ◌⊎◌, inl, inr,
  bit_and, bit_or, u32, sub32, shl, write,
}
use bit_simple_kernel.Vmm.{
  Machine, table_of, page_mask, page_size, page_present, page_write, page_offset, pte_count,
  pte_size, word_at, init_pgd, init_pte, init_vmm,
}
use bit_simple_kernel.Vmm.Index.{present_write_lem}
use bit_simple_kernel.Vmm.Space.{IsSpace}
use bit_simple_kernel.Vmm.Table.{write_small}
use bit_simple_kernel.Vmm.Linear.{
  IsPlaced, dir_entry, frame_entry, init_pgd_outside, init_pte_outside, booted, booted-table,
}

-- The words that are written are words.
entry_small :
    (a q : ℕ) → a ≡ q * 2 ^ 12 → a < 2 ^ 32 → bit_or (bit_or a page_present) page_write < 2 ^ 32
entry_small a q e h =
    let v = ap (λ (t : ℕ). bit_or (bit_or t page_present) page_write) e ∙ present_write_lem q in
    rw v (omega (arith, e))

init_pgd_small :
    (pgd pte n i j : ℕ) (m : ℕ → ℕ)
    → pte % 2 ^ 12 ≡ 0
    → ((a : ℕ) → m a < 2 ^ 32)
    → (a : ℕ) → init_pgd pgd pte n i j m a < 2 ^ 32
unfolding init_pgd
init_pgd_small pgd pte zero i j m aligned h a = h a
init_pgd_small pgd pte (suc n) i j m aligned h a =
    let x = sub32 (pte + page_size * j) page_offset in
    init_pgd_small pgd pte n (i + 1) (j + 1) (write m (word_at pgd i) (dir_entry pte j)) aligned
      (write_small m (word_at pgd i) (dir_entry pte j) h
        (entry_small x (x / 2 ^ 12) (omega (arith, aligned)) (omega arith)))
      a

init_pte_small :
    (pte n i : ℕ) (m : ℕ → ℕ) → ((a : ℕ) → m a < 2 ^ 32) → (a : ℕ) → init_pte pte n i m a < 2 ^ 32
unfolding init_pte
init_pte_small pte zero i m h a = h a
init_pte_small pte (suc n) i m h a =
    let x = u32 (shl i 12) in
    init_pte_small pte n (i + 1) (write m (word_at pte i) (frame_entry i))
      (write_small m (word_at pte i) (frame_entry i) h
        (entry_small x (x / 2 ^ 12) (omega arith) (omega arith)))
      a

-- Where the directory starts out empty, and its page is whole.
pub record IsEmpty (m : ℕ → ℕ) (pgd : ℕ) : Type 0 where
  pub words : (a : ℕ) → m a < 2 ^ 32
  pub aligned : pgd % 2 ^ 12 ≡ 0
  pub no_tables : (i : ℕ) → i < 1024 → m (word_at pgd i) ≡ 0

module _ (pgd pte : ℕ) (placed : IsPlaced pgd pte) (s : Machine) (start : IsEmpty s.mem pgd) where
  booted_small : (a : ℕ) → booted pgd pte placed s a < 2 ^ 32
  unfolding init_vmm
  booted_small a =
      init_pte_small pte (pte_count * pte_size - 1) 1 _
        (init_pgd_small pgd pte pte_count 768 0 s.mem placed.pte_aligned start.words) a

  -- A slot outside the range that `init_vmm` fills stays empty.
  table_outside :
      (i : ℕ) → i < 1024 → (i < 768) ⊎ (896 ≤ i) → table_of (booted pgd pte placed s) pgd i ≡ 0
  unfolding init_vmm
  table_outside i h out =
      ap (λ (t : ℕ). bit_and t page_mask)
        (init_pte_outside pte (pte_count * pte_size - 1) 1 _ (word_at pgd i)
            (λ k l e. omega (arith, placed.separate))
          ∙ init_pgd_outside pgd pte pte_count 768 0 s.mem (word_at pgd i)
              (λ k l e. omega (arith, out))
          ∙ start.no_tables i h)

  -- A slot is empty, or it has one of the tables.
  pub table-cases :
      (i : ℕ)
      → i < 1024
      → (table_of (booted pgd pte placed s) pgd i ≡ 0)
        ⊎ (768 ≤ i)
          × (i < 896)
          × (table_of (booted pgd pte placed s) pgd i ≡ pte - page_offset + 2 ^ 12 * (i - 768))
  table-cases i h = elim (range i) [
    | inl out ↦ inl (table_outside i h out)
    | inr in_range ↦
        let place : 768 + (i - 768) ≡ i = omega (arith, in_range.0) in
        inr (
          in_range.0,
          in_range.1,
          ap (λ (k : ℕ). table_of (booted pgd pte placed s) pgd k) (sym place)
              ∙ booted-table pgd pte placed s (i - 768) (omega (arith, in_range.1)),
        )
  ]
    where
      range : (i : ℕ) → ((i < 768) ⊎ (896 ≤ i)) ⊎ (768 ≤ i) × (i < 896)
      range i = omega arith

  pub booted-IsSpace : IsSpace (booted pgd pte placed s) pgd
  booted-IsSpace = record {
    words = booted_small;
    aligned = start.aligned;
    off_dir = λ i h used. elim (table-cases i h) [
      | inl e ↦ absurd (used e)
      | inr t ↦
          rw t.2
            (λ e. omega (arith, e, t.0, t.1, placed.separate, placed.pte_above, placed.pte_below))
    ];
    apart = λ i j h k used same. elim (table-cases i h) [
      | inl e ↦ absurd (used e)
      | inr t ↦ elim (table-cases j k) [
        | inl e ↦ absurd (used (same ∙ e))
        | inr u ↦ omega (arith, sym t.2 ∙ same ∙ u.2, t.0, u.0)
      ]
    ];
  }
