-- ===== src/Melf/First.antt =====
-- Which symbol src/kernel/debug/melf.c finds for an address.
use bit_simple_kernel.Prelude.{
  ℕ, zero, suc, ◌+◌, ◌/◌, ◌%◌, ◌^◌, ◌≤◌, ◌<◌, ◌==◌, ◌&&◌, ltb, leb, ltb-cases, Bool-cases, ◌≡◌, ◌⊎◌,
  inl, inr, refl, arith, u32,
}
use bit_simple_kernel.Prelude.Bits.{bit_and_low}
use bit_simple_kernel.Melf.{
  ElfSymbol, Elf, elf32_st_type, elf_symbol_size, lookup_from, elf_lookup_symbol,
}

-- A function symbol over a range with the address.
pub record Contains (addr : ℕ) (s : ElfSymbol) : Type 0 where
  pub is_function : s.info % 16 ≡ 2
  pub above : s.value ≤ addr
  pub below : addr < s.value + s.size

-- `r` is the name of the first of the entries from `k` up to `k + n` that contains the address, or
-- null where none does.
abbrev pub IsFound : ℕ → Elf → ℕ → ℕ → ℕ → Type 0
IsFound addr elf k n r =
    ((i : ℕ) × (k ≤ i)
      × (i < k + n)
      × Contains addr (elf.symtab i)
      × ((j : ℕ) → k ≤ j → j < i → ¬ Contains addr (elf.symtab j))
      × (r ≡ u32 (elf.strtab + (elf.symtab i).name)))
    ⊎ (((j : ℕ) → k ≤ j → j < k + n → ¬ Contains addr (elf.symtab j)) × (r ≡ 0))

-- One round: the symbol contains the address and is the answer, or it does not and is passed over.
round :
    (addr : ℕ) (elf : Elf) (n k : ℕ)
    → (elf.symtab k).value + (elf.symtab k).size < 2 ^ 32
    → (Contains addr (elf.symtab k)
        × (lookup_from (suc n) k addr elf ≡ u32 (elf.strtab + (elf.symtab k).name)))
      ⊎ ((¬ Contains addr (elf.symtab k))
          × (lookup_from (suc n) k addr elf ≡ lookup_from n (k + 1) addr elf))
unfolding lookup_from
round addr elf n k fits =
    let symbol = elf.symtab k in
    let kind = bit_and_low 4 symbol.info in
    elim (Bool-cases (elf32_st_type symbol.info == 2)) [
      | inr other ↦ inr (λ c. ground (arith, other, kind, c.is_function), rw other refl)
      | inl function ↦
          elim (Bool-cases (leb symbol.value addr && ltb addr (u32 (symbol.value + symbol.size)))) [
            | inl hit ↦ inl (
              record {
                is_function = ground (arith, function, kind);
                above = ground (arith, hit);
                below = ground (arith, hit);
              },
              rw (function, hit) refl,
            )
            | inr miss ↦ inr (λ c. ground (arith, miss, c.above, c.below), rw (function, miss) refl)
          ]
    ]

-- A symbol in front that does not contain the address changes nothing.
module _ (addr : ℕ) (elf : Elf) (k : ℕ) (miss : ¬ Contains addr (elf.symtab k)) where
  still_none :
      (j : ℕ)
      → k ≤ j
      → (k + 1 ≤ j → ¬ Contains addr (elf.symtab j))
      → ¬ Contains addr (elf.symtab j)
  still_none j h later = elim (ltb-cases k j) [
    | inl lt ↦ later (omega arith)
    | inr ge ↦ let here : k ≡ j = omega arith in rw (← here) miss
  ]

  IsFound-wider : (n r : ℕ) → IsFound addr elf (k + 1) n r → IsFound addr elf k (suc n) r
  IsFound-wider n r (inl (i, h, l, c, first, e)) = inl (
    i,
    omega arith,
    omega arith,
    c,
    λ j above below. still_none j above (λ a. first j a below),
    e,
  )
  IsFound-wider n r (inr (none_there, e)) =
      inr (λ j above below. still_none j above (λ a. none_there j a (omega arith)), e)

lookup_from-zero : (k addr : ℕ) (elf : Elf) → lookup_from zero k addr elf ≡ 0
unfolding lookup_from
lookup_from-zero k addr elf = refl

IsFound-from :
    (addr : ℕ) (elf : Elf) (n k : ℕ)
    → ((i : ℕ) → k ≤ i → i < k + n → (elf.symtab i).value + (elf.symtab i).size < 2 ^ 32)
    → IsFound addr elf k n (lookup_from n k addr elf)
IsFound-from addr elf zero k fits =
    inr (λ j h l c. absurd (omega arith), lookup_from-zero k addr elf)
IsFound-from addr elf (suc n) k fits =
    elim (round addr elf n k (fits k (omega arith) (omega arith))) [
      | inl (c, e) ↦ inl (k, omega arith, omega arith, c, λ j h l d. absurd (omega arith), e)
      | inr (miss, e) ↦ rw e (
          IsFound-wider addr elf k miss n (lookup_from n (k + 1) addr elf) (
            IsFound-from addr elf n (k + 1)
              (λ i h l. fits i (omega (arith, h)) (omega (arith, l)))))
    ]

-- `elf_lookup_symbol` returns the name of the first function symbol of the table whose range has
-- the address, and null if there is none. No range of a symbol of the table passes the end of the
-- address space.
pub elf_lookup_symbol-IsFound :
    (addr : ℕ) (elf : Elf)
    → ((i : ℕ)
        → i < elf.symtabsz / elf_symbol_size
        → (elf.symtab i).value + (elf.symtab i).size < 2 ^ 32)
    → IsFound addr elf 0 (elf.symtabsz / elf_symbol_size) (elf_lookup_symbol addr elf)
elf_lookup_symbol-IsFound addr elf fits =
    IsFound-from addr elf (elf.symtabsz / elf_symbol_size) 0 (λ i h l. fits i (omega (arith, l)))
