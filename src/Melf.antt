-- ===== src/Melf.antt =====
-- The symbols of the kernel image: src/kernel/debug/melf.c and src/include/melf.h. The table is
-- reached through its entries, and a string is its address.
pub mod First
pub mod Sections
mod Tests
use bit_simple_kernel.Prelude.{
  ℕ, zero, suc, ◌+◌, ◌/◌, ◌==◌, ◌&&◌, not, ltb, leb, ◌*◌, ◌%◌, ◌^◌, u32, word, bit_and,
  if◌then◌else◌, Option, none, some,
}
use bit_simple_kernel.Vmm.{page_offset}
use bit_simple_kernel.Strings.{Sign, less, equal, greater, strcmp}

pub record ElfSymbol : Type 0 where
  pub name : ℕ
  pub value : ℕ
  pub size : ℕ
  pub info : ℕ
  pub other : ℕ
  pub shndx : ℕ

pub record Elf : Type 0 where
  pub symtab : ℕ → ElfSymbol
  pub symtabsz : ℕ
  pub strtab : ℕ
  pub strtabsz : ℕ

-- `ELF32_ST_TYPE`.
abbrev pub elf32_st_type : ℕ → ℕ
elf32_st_type i = bit_and i 0xf

abbrev pub elf_symbol_size : ℕ
elf_symbol_size = 16

-- The loop of `elf_lookup_symbol` from entry `i` on, with `n` rounds left; 0 is the null pointer.
unfoldable pub lookup_from : ℕ → ℕ → ℕ → Elf → ℕ
lookup_from zero i addr elf = 0
lookup_from (suc n) i addr elf =
    let symbol = elf.symtab i in
    let rest = lookup_from n (i + 1) addr elf in
    if not (elf32_st_type symbol.info == 0x2)
    then rest
    else if leb symbol.value addr && ltb addr (u32 (symbol.value + symbol.size))
    then u32 (elf.strtab + symbol.name)
    else rest

abbrev pub elf_lookup_symbol : ℕ → Elf → ℕ
elf_lookup_symbol addr elf = lookup_from (elf.symtabsz / elf_symbol_size) 0 addr elf

-- The fields of `mutilboot_t` that are used here.
pub record Mutilboot : Type 0 where
  pub num : ℕ
  pub addr : ℕ
  pub shndx : ℕ

-- Entry `i` of the symbol table at `a`.
abbrev pub symbols_at : (ℕ → ℕ) → ℕ → ℕ → ElfSymbol
symbols_at m a i = record {
  name = word m (u32 (a + 16 * i));
  value = word m (u32 (a + 16 * i + 4));
  size = word m (u32 (a + 16 * i + 8));
  info = m (u32 (a + 16 * i + 12));
  other = m (u32 (a + 16 * i + 13));
  shndx = m (u32 (a + 16 * i + 14)) + m (u32 (a + 16 * i + 15)) * 2 ^ 8;
}

-- No string is longer than the memory.
abbrev pub name_fuel : ℕ
name_fuel = 2 ^ 32

-- `elf_from_mutilboot` on a memory, with the addresses at which the literals ".strtab" and ".symtab"
-- stand.
module _ (m : ℕ → ℕ) (strtab_name symtab_name : ℕ) (mb : Mutilboot) where
  -- `sh[i].name`, `sh[i].addr` and `sh[i].size`.
  abbrev pub section_name : ℕ → ℕ
  section_name i = word m (u32 (mb.addr + 40 * i))

  abbrev pub section_addr : ℕ → ℕ
  section_addr i = word m (u32 (mb.addr + 40 * i + 12))

  abbrev pub section_size : ℕ → ℕ
  section_size i = word m (u32 (mb.addr + 40 * i + 20))

  -- `name`.
  abbrev pub name_address : ℕ → ℕ
  name_address i = u32 (section_addr mb.shndx + section_name i + page_offset)

  -- `sh[i].addr + PAGE_OFFSET`.
  abbrev pub contents : ℕ → ℕ
  contents i = u32 (section_addr i + page_offset)

  abbrev pub set_strtab : ℕ → Elf → Elf
  set_strtab i elf = record elf { strtab = contents i; strtabsz = section_size i }

  abbrev pub set_symtab : ℕ → Elf → Elf
  set_symtab i elf = record elf { symtab = symbols_at m (contents i); symtabsz = section_size i }

  -- The tests of a round, on what `strcmp` returns.
  pub if_symtab : Option Sign → ℕ → Elf → Option Elf
  if_symtab none i elf = none
  if_symtab (some equal) i elf = some (set_symtab i elf)
  if_symtab (some _) i elf = some elf

  pub if_strtab : Option Sign → ℕ → Elf → Option Elf
  if_strtab none i elf = none
  if_strtab (some equal) i elf = some (set_strtab i elf)
  if_strtab (some _) i elf = if_symtab (strcmp name_fuel (name_address i) symtab_name m) i elf

  abbrev pub on_elf : Option Elf → (Elf → Option Elf) → Option Elf
  on_elf none k = none
  on_elf (some elf) k = k elf

  -- The loop from section `i` on, with `n` rounds left.
  unfoldable pub find_tables : ℕ → ℕ → Elf → Option Elf
  find_tables zero i elf = some elf
  find_tables (suc n) i elf =
      on_elf (if_strtab (strcmp name_fuel (name_address i) strtab_name m) i elf)
        (λ e. find_tables n (i + 1) e)

  -- `elf` is what the variable holds at the start, which the code does not set.
  unfoldable pub elf_from_mutilboot : Elf → Option Elf
  elf_from_mutilboot elf = find_tables mb.num 0 elf
