-- ===== src/Vmm/Table.antt =====
-- A fresh page put into an empty slot of the directory, as `map` does.
use native.Mathlib.Decide.{ℕ_discrete}
use bit_simple_kernel.Prelude.{
  ℕ, zero, suc, ◌+◌, ◌*◌, ◌/◌, ◌%◌, ◌^◌, ◌<◌, ◌≡◌, ◌∙◌, sym, refl, ap, ◌≢◌, write, write_self,
  write_ne, bit_and, bit_or, arith,
}
use bit_simple_kernel.Vmm.{
  page_mask, page_present, page_write, pgd_index, pte_index, pte_size, word_at, table_of,
  clear_words, Machine, new_table,
}
use bit_simple_kernel.Vmm.Index.{mask_lem, present_write_lem}
use bit_simple_kernel.Vmm.Space.{
  IsSpace, kernel_of, entry_at, word_ne, table-aligned, table-lt, kernel_of-aligned,
  kernel_of_injective, pgd_index-lt, pte_index-lt,
}

clear_words_outside :
    (n a b : ℕ) (m : ℕ → ℕ) → ((k : ℕ) → k < n → word_at a k ≢ b) → clear_words n a m b ≡ m b
unfolding clear_words
clear_words_outside zero a b m h = refl
clear_words_outside (suc n) a b m h =
    clear_words_outside n (a + 4) b (write m a 0) (λ k l e. h (suc k) (omega arith) (omega arith))
    ∙ write_ne m a 0 b (λ e. h 0 (omega arith) (omega arith))

clear_words_inside : (n a b k : ℕ) (m : ℕ → ℕ) → k < n → b ≡ word_at a k → clear_words n a m b ≡ 0
unfolding clear_words
clear_words_inside zero a b k m h e = absurd (omega arith)
clear_words_inside (suc n) a b zero m h e =
    clear_words_outside n (a + 4) b (write m a 0) (λ k l f. omega arith)
    ∙ rw e (ap (write m a 0) (omega arith) ∙ write_self m a 0)
clear_words_inside (suc n) a b (suc k) m h e =
    clear_words_inside n (a + 4) b k (write m a 0) (omega arith) (omega arith)

pub write_small :
    (m : ℕ → ℕ) (i v : ℕ) → ((a : ℕ) → m a < 2 ^ 32) → v < 2 ^ 32 → (a : ℕ) → write m i v a < 2 ^ 32
unfolding write
write_small m i v h k a = ground (arith, h a)

clear_words_small :
    (n a : ℕ) (m : ℕ → ℕ) → ((b : ℕ) → m b < 2 ^ 32) → (b : ℕ) → clear_words n a m b < 2 ^ 32
unfolding clear_words
clear_words_small zero a m h b = h b
clear_words_small (suc n) a m h b =
    clear_words_small n (a + 4) (write m a 0) (write_small m a 0 h (omega arith)) b

-- A page that may become a table: not the directory, and no table yet.
pub record IsFresh (m : ℕ → ℕ) (pgd p : ℕ) : Type 0 where
  pub aligned : p % 2 ^ 12 ≡ 0
  pub small : p < 2 ^ 32
  pub ne_zero : p ≢ 0
  pub off_dir : kernel_of p ≢ pgd
  pub unused : (i : ℕ) → i < 1024 → table_of m pgd i ≢ p

module _ (s : Machine) (pgd : ℕ) (sp : IsSpace s.mem pgd) (i : ℕ) (i_small : i < 1024)
    (no_table : table_of s.mem pgd i ≡ 0) (p : ℕ) (fresh : IsFresh s.mem pgd p) where
  abbrev extended : ℕ → ℕ
  extended = (new_table pgd i p s).mem

  -- Outside the new table only the directory slot changes.
  extended_outside :
      (b : ℕ)
      → ((k : ℕ) → k < 1024 → word_at (kernel_of p) k ≢ b)
      → extended b ≡ write s.mem (word_at pgd i) (bit_or (bit_or p page_present) page_write) b
  unfolding new_table
  extended_outside b h = clear_words_outside pte_size (kernel_of p) b _ h

  dir_outside : (j : ℕ) → j < 1024 → (k : ℕ) → k < 1024 → word_at (kernel_of p) k ≢ word_at pgd j
  dir_outside j h k l =
      word_ne (kernel_of p) pgd k j (kernel_of-aligned p fresh.aligned) sp.aligned fresh.off_dir l h

  slot_small : bit_or (bit_or p page_present) page_write < 2 ^ 32
  slot_small =
      let e : p ≡ p / 2 ^ 12 * 2 ^ 12 = omega (arith, fresh.aligned) in
      let f =
        ap (λ (x : ℕ). bit_or (bit_or x page_present) page_write) e
        ∙ present_write_lem (p / 2 ^ 12) in
      omega (arith, f, fresh.small)

  slot_value : bit_and (bit_or (bit_or p page_present) page_write) page_mask ≡ p
  slot_value =
      let e : p ≡ p / 2 ^ 12 * 2 ^ 12 = omega (arith, fresh.aligned) in
      let f =
        ap (λ (x : ℕ). bit_or (bit_or x page_present) page_write) e
        ∙ present_write_lem (p / 2 ^ 12) in
      ap (λ (x : ℕ). bit_and x page_mask) f ∙ mask_lem _ (omega (arith, fresh.small)) ∙ omega arith

  pub extended-table_self : table_of extended pgd i ≡ p
  extended-table_self =
      ap (λ (x : ℕ). bit_and x page_mask)
        (extended_outside (word_at pgd i) (dir_outside i i_small) ∙ write_self s.mem _ _)
      ∙ slot_value

  pub extended-table_other :
      (j : ℕ) → j < 1024 → j ≢ i → table_of extended pgd j ≡ table_of s.mem pgd j
  extended-table_other j h ne =
      ap (λ (x : ℕ). bit_and x page_mask)
        (extended_outside (word_at pgd j) (dir_outside j h)
          ∙ write_ne s.mem _ _ (word_at pgd j) (λ e. ne (omega arith)))

  -- The new table is empty,
  extended-entry_self : (k : ℕ) → k < 1024 → extended (word_at (kernel_of p) k) ≡ 0
  unfolding new_table
  extended-entry_self k h = clear_words_inside pte_size (kernel_of p) _ k _ h refl

  kept_word :
      (j k : ℕ)
      → j < 1024
      → k < 1024
      → table_of s.mem pgd j ≢ 0
      → extended (word_at (kernel_of (table_of s.mem pgd j)) k)
        ≡ s.mem (word_at (kernel_of (table_of s.mem pgd j)) k)
  kept_word j k h l used =
      let t = table_of s.mem pgd j in
      let t_aligned = kernel_of-aligned t (table-aligned _ (sp.words _)) in
      extended_outside (word_at (kernel_of t) k) (λ q r.
        word_ne (kernel_of p) (kernel_of t) q k (kernel_of-aligned p fresh.aligned) t_aligned
          (λ e.
            fresh.unused j h
              (sym (kernel_of_injective p t fresh.small (table-lt _ (sp.words _)) e)))
          r l)
      ∙ write_ne s.mem _ _ _
          (word_ne (kernel_of t) pgd k i t_aligned sp.aligned (sp.off_dir j h used) l i_small)

  -- so that no address changes its entry.
  pub extended-entry : (va : ℕ) → va < 2 ^ 32 → entry_at extended pgd va ≡ entry_at s.mem pgd va
  extended-entry va small = elim (ℕ_discrete (pgd_index va) i) [
    | yes e ↦
        rw (e, extended-table_self, no_table, extended-entry_self (pte_index va) (pte_index-lt va))
          (ground arith)
    | no ne ↦
        let h = pgd_index-lt va small in
        rw (extended-table_other (pgd_index va) h ne)
          (elim (ℕ_discrete (table_of s.mem pgd (pgd_index va)) 0) [
            | yes z ↦ ground arith
            | no used ↦ rw (kept_word (pgd_index va) (pte_index va) h (pte_index-lt va) used) refl
          ])
  ]

  extended-words : (a : ℕ) → extended a < 2 ^ 32
  unfolding new_table
  extended-words a =
      clear_words_small pte_size (kernel_of p) _
        (write_small s.mem (word_at pgd i) _ sp.words slot_small) a

  pub extended-IsSpace : IsSpace extended pgd
  extended-IsSpace = record {
    words = extended-words;
    aligned = sp.aligned;
    off_dir = λ j h. elim (ℕ_discrete j i) [
      | yes e ↦ rw (e, extended-table_self) (λ _. fresh.off_dir)
      | no ne ↦ rw (extended-table_other j h ne) (sp.off_dir j h)
    ];
    apart = λ j k h l. elim (ℕ_discrete j i) [
      | yes e ↦ elim (ℕ_discrete k i) [
        | yes f ↦ λ _ _. e ∙ sym f
        | no nf ↦
            rw (e, extended-table_self, extended-table_other k l nf)
              (λ _ q. absurd (fresh.unused k l (sym q)))
      ]
      | no ne ↦ elim (ℕ_discrete k i) [
        | yes f ↦
            rw (f, extended-table_self, extended-table_other j h ne)
              (λ _ q. absurd (fresh.unused j h q))
        | no nf ↦ rw (extended-table_other j h ne, extended-table_other k l nf) (sp.apart j k h l)
      ]
    ];
  }
