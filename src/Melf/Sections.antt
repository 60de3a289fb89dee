-- ===== src/Melf/Sections.antt =====
-- Which sections `elf_from_mutilboot` of src/kernel/debug/melf.c takes for the two tables.
use bit_simple_kernel.Prelude.{
  ℕ, zero, suc, ◌+◌, ◌<◌, ◌≡◌, ◌∙◌, ap, refl, arith, if◌then◌else◌, Bool, true, false, List, length,
  chars, Option, none, some, ◌⊎◌, inl, inr,
}
use bit_simple_kernel.Strings.{Sign, less, equal, greater, strcmp, char_ltb}
use bit_simple_kernel.Strings.Texts.{IsText}
use bit_simple_kernel.Strings.Order.{compare, strcmp-compare}
use bit_simple_kernel.Melf.{
  Elf, Mutilboot, symbols_at, name_fuel, name_address, contents, section_size, if_strtab, if_symtab,
  find_tables, elf_from_mutilboot,
}

abbrev is_equal : Sign → Bool
is_equal equal = true
is_equal _ = false

-- The last index below `n` at which a test holds.
abbrev pub last_index : (ℕ → Bool) → ℕ → Option ℕ
last_index p zero = none
last_index p (suc n) = if p n then some n else last_index p n

-- What a table gets from a section, or had before.
abbrev pub chosen {ℓ} : {A : Type ℓ} → Option ℕ → (ℕ → A) → A → A
chosen none f old = old
chosen (some i) f old = f i

-- Two texts are the same.
abbrev pub is_text : List ℕ → List ℕ → Bool
is_text xs ys = is_equal (compare xs ys)

module _ (m : ℕ → ℕ) (strtab_name symtab_name : ℕ) (mb : Mutilboot) (names : ℕ → List ℕ)
    (old : Elf) where
  abbrev is_strtab : ℕ → Bool
  is_strtab i = is_text (names i) (chars ".strtab")

  abbrev is_symtab : ℕ → Bool
  is_symtab i = is_text (names i) (chars ".symtab")

  -- The tables that the first `n` sections make.
  abbrev pub tables : ℕ → Elf
  tables n =
      let str = last_index is_strtab n in
      let symbols = last_index is_symtab n in
      record {
        symtab =
            chosen symbols (λ i. symbols_at m (contents m strtab_name symtab_name mb i)) old.symtab;
        symtabsz = chosen symbols (section_size m strtab_name symtab_name mb) old.symtabsz;
        strtab = chosen str (contents m strtab_name symtab_name mb) old.strtab;
        strtabsz = chosen str (section_size m strtab_name symtab_name mb) old.strtabsz;
      }

-- A sign is that of equal texts, or not.
equal-cases : (s : Sign) → (s ≡ equal) ⊎ (is_equal s ≡ false)
equal-cases less = inr refl
equal-cases equal = inl refl
equal-cases greater = inr refl

less_lem : compare (chars ".strtab") (chars ".symtab") ≡ less
unfolding compare chars char_ltb
less_lem = refl

-- The text at `a` is `xs`, and shorter than the memory.
abbrev pub Reads : (ℕ → ℕ) → ℕ → List ℕ → Type 0
Reads m a xs = IsText m a xs × (length xs < name_fuel)

module _ (m : ℕ → ℕ) (strtab_name symtab_name : ℕ) (mb : Mutilboot) (names : ℕ → List ℕ)
    (old : Elf) where
  abbrev pub upto : ℕ → Elf
  upto = tables m strtab_name symtab_name mb names old

  if_strtab-other :
      (s : Sign) (i : ℕ) (elf : Elf)
      → is_equal s ≡ false
      → if_strtab m strtab_name symtab_name mb (some s) i elf
        ≡ if_symtab m strtab_name symtab_name mb
            (strcmp name_fuel (name_address m strtab_name symtab_name mb i) symtab_name m)
            i
            elf
  unfolding if_strtab
  if_strtab-other less i elf h = refl
  if_strtab-other equal i elf h = absurd (cc)
  if_strtab-other greater i elf h = refl

  if_symtab-other :
      (s : Sign) (i : ℕ) (elf : Elf)
      → is_equal s ≡ false
      → if_symtab m strtab_name symtab_name mb (some s) i elf ≡ some elf
  unfolding if_symtab
  if_symtab-other less i elf h = refl
  if_symtab-other equal i elf h = absurd (cc)
  if_symtab-other greater i elf h = refl

  module _ (strtab_text : IsText m strtab_name (chars ".strtab"))
      (symtab_text : IsText m symtab_name (chars ".symtab")) where
    round :
        (i : ℕ)
        → Reads m (name_address m strtab_name symtab_name mb i) (names i)
        → if_strtab m strtab_name symtab_name mb
            (strcmp name_fuel (name_address m strtab_name symtab_name mb i) strtab_name m)
            i
            (upto i)
          ≡ some (upto (suc i))
    unfolding if_strtab if_symtab
    round i named =
        let a = name_address m strtab_name symtab_name mb i in
        let str =
          strcmp-compare m name_fuel a strtab_name (names i) (chars ".strtab") named.1 named.0
            strtab_text in
        let sym =
          strcmp-compare m name_fuel a symtab_name (names i) (chars ".symtab") named.1 named.0
            symtab_text in
        elim (equal-cases (compare (names i) (chars ".strtab"))) [
          | inl e ↦
              let other : compare (names i) (chars ".symtab") ≡ less =
                ap (λ (xs : List ℕ). compare xs (chars ".symtab")) (str.1.0 e) ∙ less_lem in
              rw (str.0, e, other) refl
          | inr ne ↦
              rw
                (
                  str.0,
                  if_strtab-other (compare (names i) (chars ".strtab")) i (upto i) ne,
                  sym.0,
                  ne,
                )
                (elim (equal-cases (compare (names i) (chars ".symtab"))) [
                  | inl e ↦ rw e refl
                  | inr none_here ↦
                      rw
                        (
                          if_symtab-other (compare (names i) (chars ".symtab")) i (upto i)
                              none_here,
                          none_here,
                        )
                        refl
                ])
        ]

    find_tables-upto :
        (n i : ℕ)
        → ((j : ℕ) → j < i + n → Reads m (name_address m strtab_name symtab_name mb j) (names j))
        → find_tables m strtab_name symtab_name mb n i (upto i) ≡ some (upto (i + n))
    unfolding find_tables
    find_tables-upto zero i named = ap (λ (k : ℕ). some (upto k)) (omega arith)
    find_tables-upto (suc n) i named =
        let next : i + 1 ≡ suc i = omega arith in
        let behind : i + suc n ≡ suc i + n = omega arith in
        rw (round i (named i (omega arith)), next, behind)
          (find_tables-upto n (suc i) (λ j h. named j (omega arith)))

    -- `elf_from_mutilboot` returns, and takes the string table from the last section that is named
    -- ".strtab" and the symbol table from the last one named ".symtab"; where there is none, the
    -- fields keep what they held. The names of all sections are texts in memory.
    pub elf_from_mutilboot-tables :
        ((j : ℕ) → j < mb.num → Reads m (name_address m strtab_name symtab_name mb j) (names j))
        → elf_from_mutilboot m strtab_name symtab_name mb old ≡ some (upto mb.num)
    unfolding elf_from_mutilboot
    elf_from_mutilboot-tables named =
        find_tables-upto mb.num 0 (λ j h. named j (omega arith))
        ∙ ap (λ (k : ℕ). some (upto k)) (omega arith)
