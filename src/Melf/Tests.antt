-- ===== src/Melf/Tests.antt =====
-- A table with a data object and two functions, for src/kernel/debug/melf.c.
use bit_simple_kernel.Prelude.{
  ℕ, zero, suc, ◌+◌, ◌==◌, ◌≡◌, refl, arith, if◌then◌else◌, List, [], ◌∷◌, chars, write, some, ◌<◌,
  ◌⊎◌, inl, inr,
}
use bit_simple_kernel.Melf.{
  ElfSymbol, Elf, lookup_from, elf_lookup_symbol, Mutilboot, elf_from_mutilboot, name_address,
}
use bit_simple_kernel.Melf.First.{IsFound, elf_lookup_symbol-IsFound}
use bit_simple_kernel.Strings.Texts.{IsText}
use bit_simple_kernel.Melf.Sections.{Reads, tables, elf_from_mutilboot-tables}

abbrev symbols : ℕ → ElfSymbol
symbols i = record {
  name = if i == 0 then 1 else if i == 1 then 8 else 15;
  value = if i == 0 then 0xC0100000 else if i == 1 then 0xC0100000 else 0xC0100100;
  size = 0x100;
  info = if i == 0 then 0x11 else 0x12;
  other = 0;
  shndx = 1;
}

abbrev image : Elf
image = record { symtab = symbols; symtabsz = 48; strtab = 0xC0200000; strtabsz = 22 }

second_function : elf_lookup_symbol 0xC0100104 image ≡ 0xC020000F
unfolding lookup_from
second_function = refl

elf_lookup_symbol-IsFound_example :
    IsFound 0xC0100104 image 0 3 (elf_lookup_symbol 0xC0100104 image)
elf_lookup_symbol-IsFound_example = elf_lookup_symbol-IsFound 0xC0100104 image (λ i h. ground arith)

abbrev put_text : ℕ → List ℕ → (ℕ → ℕ) → ℕ → ℕ
put_text a [] m = m
put_text a (c ∷ cs) m = put_text (a + 1) cs (write m a c)

-- Two section headers from 0x1000 on; their names stand at 64 and 80. The first one is the string
-- table of the names as well, 1 GB up, which is address 0 with `PAGE_OFFSET` added.
abbrev memory : ℕ → ℕ
memory = put_text 64 (chars ".symtab") (
    put_text 80 (chars ".strtab") (
      put_text 0x1000 (64 ∷ []) (
        put_text 0x100F (64 ∷ 0 ∷ 0 ∷ 0 ∷ 0 ∷ 16 ∷ [])
          (put_text 0x1028 (80 ∷ []) (put_text 0x1037 (64 ∷ 0 ∷ 0 ∷ 0 ∷ 0 ∷ 22 ∷ []) (λ _. 0))))))

abbrev boot_data : Mutilboot
boot_data = record { num = 2; addr = 0x1000; shndx = 0 }

abbrev section_names : ℕ → List ℕ
section_names zero = chars ".symtab"
section_names (suc i) = chars ".strtab"

symtab-IsText : IsText memory 64 (chars ".symtab")
unfolding chars write
symtab-IsText = (
  refl,
  λ e. omega (arith, e),
  omega arith,
  (
    refl,
    λ e. omega (arith, e),
    omega arith,
    (
      refl,
      λ e. omega (arith, e),
      omega arith,
      (
        refl,
        λ e. omega (arith, e),
        omega arith,
        (
          refl,
          λ e. omega (arith, e),
          omega arith,
          (
            refl,
            λ e. omega (arith, e),
            omega arith,
            (refl, λ e. omega (arith, e), omega arith, refl),
          ),
        ),
      ),
    ),
  ),
)

strtab-IsText : IsText memory 80 (chars ".strtab")
unfolding chars write
strtab-IsText = (
  refl,
  λ e. omega (arith, e),
  omega arith,
  (
    refl,
    λ e. omega (arith, e),
    omega arith,
    (
      refl,
      λ e. omega (arith, e),
      omega arith,
      (
        refl,
        λ e. omega (arith, e),
        omega arith,
        (
          refl,
          λ e. omega (arith, e),
          omega arith,
          (
            refl,
            λ e. omega (arith, e),
            omega arith,
            (refl, λ e. omega (arith, e), omega arith, refl),
          ),
        ),
      ),
    ),
  ),
)

two_below : (j : ℕ) → j < 2 → (j ≡ 0) ⊎ (j ≡ 1)
two_below j h = omega (arith, h)

sections-Reads :
    (j : ℕ) → j < 2 → Reads memory (name_address memory 80 64 boot_data j) (section_names j)
unfolding chars write
sections-Reads j h = elim (two_below j h) [
  | inl e ↦ rw e (symtab-IsText, omega arith)
  | inr e ↦ rw e (strtab-IsText, omega arith)
]

elf_from_mutilboot-tables_example :
    elf_from_mutilboot memory 80 64 boot_data image
    ≡ some (tables memory 80 64 boot_data section_names image 2)
elf_from_mutilboot-tables_example =
    elf_from_mutilboot-tables memory 80 64 boot_data section_names image strtab-IsText symtab-IsText
      sections-Reads
