-- ===== src/Entry.antt =====
-- The start of the kernel: the temporary page tables of src/init/entry.c. This part of `kern_entry`
-- runs before paging, so it reaches memory by physical addresses.
pub mod Paging
pub mod Handover
mod Tests
use bit_simple_kernel.Prelude.{ℕ, zero, suc, ◌+◌, shl, u32, write, bit_or}
use bit_simple_kernel.Vmm.{page_present, page_write, page_offset, pgd_index, pte_size, word_at}

abbrev pub pgd_tmp : ℕ
pgd_tmp = 0x1000

abbrev pub pte_low : ℕ
pte_low = 0x2000

abbrev pub pte_high : ℕ
pte_high = 0x3000

-- `(i << 12) | PAGE_PRESENT | PAGE_WRITE`.
abbrev pub tmp_entry : ℕ → ℕ
tmp_entry i = bit_or (bit_or (u32 (shl i 12)) page_present) page_write

-- The loop over both tables, with `n` rounds left.
unfoldable pub fill_tables : ℕ → ℕ → (ℕ → ℕ) → ℕ → ℕ
fill_tables zero i m = m
fill_tables (suc n) i m =
    let m₁ = write m (word_at pte_low i) (tmp_entry i) in
    fill_tables n (i + 1) (write m₁ (word_at pte_high i) (tmp_entry i))

-- The memory when `kern_entry` turns paging on.
unfoldable pub kern_entry : (ℕ → ℕ) → ℕ → ℕ
kern_entry m =
    let m₁ = write m (word_at pgd_tmp 0) (bit_or (bit_or pte_low page_present) page_write) in
    let m₂ =
      write m₁ (word_at pgd_tmp (pgd_index page_offset))
        (bit_or (bit_or pte_high page_present) page_write) in
    fill_tables pte_size 0 m₂
