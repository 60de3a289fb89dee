-- ===== src/Pmm.antt =====
-- Physical pages: src/mm/pmm.c and src/include/pmm.h. The free pages are the entries 1 to
-- `stack_top` of an array that is used as a stack.
pub mod Stack
pub mod Init
pub mod Boot
mod Tests
use bit_simple_kernel.Prelude.{
  ℕ, zero, suc, ◌+◌, ◌-◌, ◌/◌, ◌==◌, ◌&&◌, ltb, leb, u32, write, if◌then◌else◌, List, [], ◌∷◌, Run,
  ok, panic, out_of_fuel, out_of_memory, pmm_stack_full, Cmd, and_then,
}

-- `PMM_MAX_SIZE`, `PMM_PAGE_SIZE` and `PAGE_MAX_SIZE`.
abbrev pub pmm_max_size : ℕ
pmm_max_size = 0x20000000

abbrev pub pmm_page_size : ℕ
pmm_page_size = 0x1000

abbrev pub page_max_size : ℕ
page_max_size = pmm_max_size / pmm_page_size

-- `pmm_stack`, `pmm_stack_top` and `phy_page_count`.
pub record Pmm : Type 0 where
  pub stack : ℕ → ℕ
  pub stack_top : ℕ
  pub phy_page_count : ℕ

-- `mmap_entry_t` but for its size; `kind` is the field `type`.
pub record MmapEntry : Type 0 where
  pub base_addr_low : ℕ
  pub base_addr_high : ℕ
  pub length_low : ℕ
  pub length_high : ℕ
  pub kind : ℕ

-- The decrement runs only at a nonzero `stack_top`.
unfoldable pub pmm_alloc_page : Cmd Pmm ℕ
pmm_alloc_page s =
    if s.stack_top == 0
    then panic out_of_memory
    else ok (s.stack s.stack_top) (record s { stack_top = s.stack_top - 1 })

unfoldable pub pmm_free_page : ℕ → Cmd Pmm (Unit {0})
pmm_free_page page s =
    if s.stack_top == page_max_size
    then panic pmm_stack_full
    else ok tt
        (record s { stack = write s.stack (s.stack_top + 1) page; stack_top = s.stack_top + 1 })

count_page : Cmd Pmm (Unit {0})
count_page s = ok tt (record s { phy_page_count = u32 (s.phy_page_count + 1) })

-- `while (page_addr < length && page_addr <= PMM_MAX_SIZE)`.
add_pages : ℕ → ℕ → ℕ → Cmd Pmm (Unit {0})
add_pages zero page_addr end s = out_of_fuel
add_pages (suc fuel) page_addr end s =
    let rest = and_then (pmm_free_page page_addr s) λ _ s₁.
      and_then (count_page s₁) λ _ s₂. add_pages fuel (u32 (page_addr + pmm_page_size)) end s₂ in
    if ltb page_addr end && leb page_addr pmm_max_size then rest else ok tt s

abbrev pub add_pages_fuel : ℕ
add_pages_fuel = page_max_size + 2

-- One round of the `for` loop; `kern_size` is `kern_end - kern_start`, which the linker sets.
add_entry : ℕ → MmapEntry → Cmd Pmm (Unit {0})
add_entry kern_size e =
    if e.kind == 1 && (e.base_addr_low == 0x100000)
    then add_pages add_pages_fuel (u32 (e.base_addr_low + kern_size))
        (u32 (e.base_addr_low + e.length_low))
    else ok tt

-- The entries are those from `mmap_addr` up to `mmap_addr + mmap_length`.
pub init_pmm : ℕ → List MmapEntry → Cmd Pmm (Unit {0})
init_pmm kern_size [] s = ok tt s
init_pmm kern_size (e ∷ es) s = and_then (add_entry kern_size e s) λ _ s₁. init_pmm kern_size es s₁
