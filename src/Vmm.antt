-- ===== src/Vmm.antt =====
-- Two-level page tables: src/mm/vmm.c and src/include/vmm.h. The kernel reaches the table at
-- physical address `t` through the virtual address `t + PAGE_OFFSET`. Memory is a map from the
-- virtual address of each aligned word to its content. `invlpg` has no effect on it
-- and is left out; cr3 is a part of the kernel as a whole, in `Boot.Kernel`.
pub mod Index
pub mod Space
pub mod Table
pub mod Map
pub mod Ready
pub mod Lookup
pub mod Linear
pub mod Directory
mod Tests
use bit_simple_kernel.Prelude.{
  ℕ, zero, suc, ◌+◌, ◌-◌, ◌*◌, ◌/◌, ◌^◌, ◌==◌, ◌&&◌, not, ltb, Bool, u32, sub32, shr, shl, write,
  bit_and, bit_or, if◌then◌else◌, Option, none, some, Run, ok, fault, Cmd, and_then, zoom,
}
use bit_simple_kernel.Pmm.{Pmm, pmm_alloc_page}

-- `PAGE_OFFSET`, `PAGE_PRESENT`, `PAGE_WRITE`, `PAGE_SIZE` and `PAGE_MASK`.
abbrev pub page_offset : ℕ
page_offset = 0xC0000000

abbrev pub page_present : ℕ
page_present = 0x1

abbrev pub page_write : ℕ
page_write = 0x2

abbrev pub page_size : ℕ
page_size = 4096

abbrev pub page_mask : ℕ
page_mask = 0xfffff000

-- `PGD_INDEX`, `PTE_INDEX`, `PTE_SIZE` and `PTE_COUNT`.
abbrev pub pgd_index : ℕ → ℕ
pgd_index x = bit_and (shr x 22) 0x3ff

abbrev pub pte_index : ℕ → ℕ
pte_index x = bit_and (shr x 12) 0x3ff

abbrev pub pte_size : ℕ
pte_size = page_size / 4

abbrev pub pte_count : ℕ
pte_count = 128

-- The physical memory that `init_vmm` maps from `PAGE_OFFSET` on: `pte_count` tables of `pte_size`
-- pages. A table behind it is not reached there, and the first access to it faults.
abbrev pub linear_size : ℕ
linear_size = 2 ^ 29

pub record Machine : Type 0 where
  pub pmm : Pmm
  pub mem : ℕ → ℕ

-- The address of element `i` of an array of words at `a`.
abbrev pub word_at : ℕ → ℕ → ℕ
word_at a i = a + 4 * i

abbrev pub store : ℕ → ℕ → Machine → Machine
store a v s = record s { mem = write s.mem a v }

-- `bzero(a, 4 * n)`.
unfoldable pub clear_words : ℕ → ℕ → (ℕ → ℕ) → ℕ → ℕ
clear_words zero a m = m
clear_words (suc n) a m = clear_words n (a + 4) (write m a 0)

abbrev pub on_pmm : {A : Type 0} → Cmd Pmm A → Cmd Machine A
on_pmm = zoom (λ s. s.pmm) (λ t s. record s { pmm = t })

-- `pgd_now[pgd_idx] & PAGE_MASK`.
abbrev pub table_of : (ℕ → ℕ) → ℕ → ℕ → ℕ
table_of m pgd_now i = bit_and (m (word_at pgd_now i)) page_mask

-- The entry that `map` writes for a new table, and the page that it clears.
unfoldable pub new_table : ℕ → ℕ → ℕ → Machine → Machine
new_table pgd_now i page s =
    let s₁ = store (word_at pgd_now i) (bit_or (bit_or page page_present) page_write) s in
    record s₁ { mem = clear_words pte_size (u32 (page + page_offset)) s₁.mem }

unfoldable pub set_entry : ℕ → ℕ → ℕ → ℕ → Machine → Machine
set_entry pte i pa flags s = store (word_at pte i) (bit_or (bit_and pa page_mask) flags) s

unfoldable pub map : ℕ → ℕ → ℕ → ℕ → Cmd Machine (Unit {0})
map pgd_now va pa flags s =
    let pgd_idx = pgd_index va in
    let pte_idx = pte_index va in
    let pte = table_of s.mem pgd_now pgd_idx in
    if pte == 0
    then (and_then (on_pmm pmm_alloc_page s) λ page s₁.
        if ltb page linear_size
        then ok tt (
            set_entry (u32 (page + page_offset)) pte_idx pa flags
              (new_table pgd_now pgd_idx page s₁))
        else fault)
    else if ltb pte linear_size
    then ok tt (set_entry (u32 (pte + page_offset)) pte_idx pa flags s)
    else fault

unfoldable pub unmap : ℕ → ℕ → Machine → Machine
unmap pgd_now va s =
    let pgd_idx = pgd_index va in
    let pte_idx = pte_index va in
    let pte = table_of s.mem pgd_now pgd_idx in
    if pte == 0 then s else store (word_at (u32 (pte + page_offset)) pte_idx) 0 s

-- `ret` is `none` where the code says `return;` with no value, and `pa` is what goes to `*pa`.
pub record Mapping : Type 0 where
  pub ret : Option ℕ
  pub pa : Option ℕ

-- `has_pa` says that the pointer `pa` is not null.
unfoldable pub get_mapping : ℕ → ℕ → Bool → Machine → Mapping
get_mapping pgd_now va has_pa s =
    let pgd_idx = pgd_index va in
    let pte_idx = pte_index va in
    let pte = table_of s.mem pgd_now pgd_idx in
    let entry = s.mem (word_at (u32 (pte + page_offset)) pte_idx) in
    if pte == 0
    then record { ret = none; pa = none }
    else if not (entry == 0) && has_pa
    then record { ret = some 1; pa = some (bit_and entry page_mask) }
    else record { ret = some 0; pa = none }

-- The first loop of `init_vmm`, with `n` rounds left.
pub init_pgd : ℕ → ℕ → ℕ → ℕ → ℕ → (ℕ → ℕ) → ℕ → ℕ
init_pgd pgd_kern pte_kern zero i j m = m
init_pgd pgd_kern pte_kern (suc n) i j m = init_pgd pgd_kern pte_kern n (i + 1) (j + 1) (
    write m (word_at pgd_kern i)
      (bit_or (bit_or (sub32 (pte_kern + page_size * j) page_offset) page_present) page_write))

-- The second loop.
pub init_pte : ℕ → ℕ → ℕ → (ℕ → ℕ) → ℕ → ℕ
init_pte pte_kern zero i m = m
init_pte pte_kern (suc n) i m =
    init_pte pte_kern n (i + 1)
      (write m (word_at pte_kern i) (bit_or (bit_or (u32 (shl i 12)) page_present) page_write))

-- `pgd_kern` and `pte_kern` are the addresses of the two static arrays. The handler of interrupt 14
-- and the load of cr3 are in `Boot.Kernel.init_paging`.
unfoldable pub init_vmm : ℕ → ℕ → Machine → Machine
init_vmm pgd_kern pte_kern s =
    let kern_pte_first_idx = pgd_index page_offset in
    record s {
      mem =
          init_pte pte_kern (pte_count * pte_size - 1) 1
            (init_pgd pgd_kern pte_kern pte_count kern_pte_first_idx 0 s.mem);
    }
