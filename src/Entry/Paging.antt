-- ===== src/Entry/Paging.antt =====
-- What the processor makes of an address with the tables of src/init/entry.c.
use bit_simple_kernel.Prelude.{
  ℕ, zero, suc, ◌+◌, ◌*◌, ◌/◌, ◌%◌, ◌^◌, ◌≤◌, ◌<◌, ◌==◌, ltb-cases, inl, inr, ◌≡◌, ◌≢◌, ◌∙◌, refl,
  arith, u32, shl, write, write_self, write_ne, if◌then◌else◌, Option, some, none,
}
use bit_simple_kernel.Vmm.{page_offset, pte_size, word_at}
use bit_simple_kernel.Vmm.Index.{present_write_lem}
use bit_simple_kernel.Entry.{pgd_tmp, pte_low, pte_high, tmp_entry, fill_tables, kern_entry}

-- The walk of the processor from the directory at physical address `cr3`, none where an entry is
-- not present.
abbrev pub translate : (ℕ → ℕ) → ℕ → ℕ → Option ℕ
translate m cr3 va =
    let dir = m (word_at cr3 (va / 2 ^ 22)) in
    let entry = m (word_at (dir / 2 ^ 12 * 2 ^ 12) (va / 2 ^ 12 % 2 ^ 10)) in
    if dir % 2 == 0
    then none
    else if entry % 2 == 0
    then none
    else some (entry / 2 ^ 12 * 2 ^ 12 + va % 2 ^ 12)

tmp_entry_lem : (i : ℕ) → i < 1024 → tmp_entry i ≡ i * 2 ^ 12 + 3
tmp_entry_lem i h =
    let small : u32 (shl i 12) ≡ i * 2 ^ 12 = omega arith in rw small (present_write_lem i)

-- The words that the loop does not reach are as before.
fill_tables_outside :
    (n i : ℕ) (m : ℕ → ℕ) (a : ℕ)
    → ((j : ℕ) → i ≤ j → j < i + n → (a ≢ word_at pte_low j) × (a ≢ word_at pte_high j))
    → fill_tables n i m a ≡ m a
unfolding fill_tables
fill_tables_outside zero i m a h = refl
fill_tables_outside (suc n) i m a h =
    let m₁ = write m (word_at pte_low i) (tmp_entry i) in
    fill_tables_outside n (i + 1) (write m₁ (word_at pte_high i) (tmp_entry i)) a
      (λ j l k. h j (omega arith) (omega arith))
    ∙ write_ne m₁ (word_at pte_high i) (tmp_entry i) a (h i (omega arith) (omega arith)).1
    ∙ write_ne m (word_at pte_low i) (tmp_entry i) a (h i (omega arith) (omega arith)).0

-- The entries of both tables.
fill_tables_inside :
    (n i : ℕ) (m : ℕ → ℕ) (j : ℕ)
    → i + n ≤ 1024
    → i ≤ j
    → j < i + n
    → (fill_tables n i m (word_at pte_low j) ≡ tmp_entry j)
      × (fill_tables n i m (word_at pte_high j) ≡ tmp_entry j)
unfolding fill_tables
fill_tables_inside zero i m j h above below = absurd (omega arith)
fill_tables_inside (suc n) i m j h above below =
    let m₁ = write m (word_at pte_low i) (tmp_entry i) in
    let m₂ = write m₁ (word_at pte_high i) (tmp_entry i) in
    elim (ltb-cases i j) [
      | inl lt ↦ fill_tables_inside n (i + 1) m₂ j (omega arith) (omega arith) (omega arith)
      | inr ge ↦
          let here : j ≡ i = omega arith in
          rw here (
            fill_tables_outside n (i + 1) m₂ (word_at pte_low i)
                  (λ k l g. (λ e. omega arith, λ e. omega arith))
                ∙ write_ne m₁ (word_at pte_high i) (tmp_entry i) (word_at pte_low i)
                    (λ e. omega arith)
                ∙ write_self m (word_at pte_low i) (tmp_entry i),
            fill_tables_outside n (i + 1) m₂ (word_at pte_high i)
                  (λ k l g. (λ e. omega arith, λ e. omega arith))
                ∙ write_self m₁ (word_at pte_high i) (tmp_entry i),
          )
    ]

-- The two entries of the directory.
kern_entry-directory :
    (m : ℕ → ℕ)
    → (kern_entry m (word_at pgd_tmp 0) ≡ pte_low + 3)
      × (kern_entry m (word_at pgd_tmp 768) ≡ pte_high + 3)
unfolding kern_entry write
kern_entry-directory m = (
  fill_tables_outside pte_size 0 _ (word_at pgd_tmp 0)
        (λ k l g. (λ e. omega arith, λ e. omega arith))
      ∙ refl,
  fill_tables_outside pte_size 0 _ (word_at pgd_tmp 768)
        (λ k l g. (λ e. omega arith, λ e. omega arith))
      ∙ refl,
)

kern_entry-tables :
    (m : ℕ → ℕ) (j : ℕ)
    → j < 1024
    → (kern_entry m (word_at pte_low j) ≡ j * 2 ^ 12 + 3)
      × (kern_entry m (word_at pte_high j) ≡ j * 2 ^ 12 + 3)
unfolding kern_entry
kern_entry-tables m j h =
    let both = fill_tables_inside pte_size 0 _ j (omega arith) (omega arith) (omega arith) in
    (both.0 ∙ tmp_entry_lem j h, both.1 ∙ tmp_entry_lem j h)

-- With the tables of `kern_entry` the processor finds each of the first 4 MB of physical memory both
-- at its own address and at the kernel's, `PAGE_OFFSET` above it.
pub kern_entry-translate :
    (m : ℕ → ℕ) (x : ℕ)
    → x < 2 ^ 22
    → (translate (kern_entry m) pgd_tmp x ≡ some x)
      × (translate (kern_entry m) pgd_tmp (page_offset + x) ≡ some x)
kern_entry-translate m x h =
    let page : x / 2 ^ 12 < 1024 = omega arith in
    let dir_low : x / 2 ^ 22 ≡ 0 = omega arith in
    let dir_high : (page_offset + x) / 2 ^ 22 ≡ 768 = omega arith in
    let index_low : x / 2 ^ 12 % 2 ^ 10 ≡ x / 2 ^ 12 = omega arith in
    let index_high : (page_offset + x) / 2 ^ 12 % 2 ^ 10 ≡ x / 2 ^ 12 = omega arith in
    let dirs = kern_entry-directory m in
    let tables = kern_entry-tables m (x / 2 ^ 12) page in
    (
      rw (dir_low, index_low, dirs.0, tables.0) (ground arith),
      rw (dir_high, index_high, dirs.1, tables.1) (ground arith),
    )
