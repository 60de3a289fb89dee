-- ===== src/Vmm/Linear.antt =====
-- The linear map that `init_vmm` sets up: `PAGE_OFFSET + x` goes to `x`.
use bit_simple_kernel.Prelude.{
  ℕ, zero, suc, ◌+◌, ◌-◌, ◌*◌, ◌/◌, ◌%◌, ◌^◌, ◌≤◌, ◌<◌, ◌≡◌, ◌∙◌, ap, ◌≢◌, arith, ◌⊎◌, inl, inr,
  refl, true, none, some, ◌==◌, ltb, if◌then◌else◌, bit_and, bit_or, u32, sub32, shl, write,
  write_self, write_ne, ltb-cases, lt→ltb,
}
use bit_simple_kernel.Vmm.{
  Machine, table_of, pgd_index, pte_index, page_mask, page_size, page_present, page_write,
  page_offset, pte_count, pte_size, word_at, init_pgd, init_pte, init_vmm, get_mapping,
}
use bit_simple_kernel.Vmm.Index.{mask_lem, pgd_index_lem, pte_index_lem, present_write_lem}

-- The entry of the directory for table `j`, and the entry of the tables for frame `i`.
abbrev pub dir_entry : ℕ → ℕ → ℕ
dir_entry pte j = bit_or (bit_or (sub32 (pte + page_size * j) page_offset) page_present) page_write

abbrev pub frame_entry : ℕ → ℕ
frame_entry i = bit_or (bit_or (u32 (shl i 12)) page_present) page_write

pub init_pgd_outside :
    (pgd pte n i j : ℕ) (m : ℕ → ℕ) (a : ℕ)
    → ((k : ℕ) → k < n → word_at pgd (i + k) ≢ a)
    → init_pgd pgd pte n i j m a ≡ m a
unfolding init_pgd
init_pgd_outside pgd pte zero i j m a h = refl
init_pgd_outside pgd pte (suc n) i j m a h =
    init_pgd_outside pgd pte n (i + 1) (j + 1) (write m (word_at pgd i) (dir_entry pte j)) a
      (λ k l e. h (suc k) (omega arith) (omega arith))
    ∙ write_ne m (word_at pgd i) (dir_entry pte j) a (λ e. h 0 (omega arith) (omega arith))

init_pgd_inside :
    (pgd pte n i j : ℕ) (m : ℕ → ℕ) (k a : ℕ)
    → k < n
    → a ≡ word_at pgd (i + k)
    → init_pgd pgd pte n i j m a ≡ dir_entry pte (j + k)
unfolding init_pgd
init_pgd_inside pgd pte zero i j m k a h e = absurd (omega arith)
init_pgd_inside pgd pte (suc n) i j m zero a h e =
    init_pgd_outside pgd pte n (i + 1) (j + 1) (write m (word_at pgd i) (dir_entry pte j)) a
      (λ k l f. omega arith)
    ∙ let f : a ≡ word_at pgd i = omega arith in
      rw f (write_self m (word_at pgd i) (dir_entry pte j) ∙ ap (dir_entry pte) (omega arith))
init_pgd_inside pgd pte (suc n) i j m (suc k) a h e =
    init_pgd_inside pgd pte n (i + 1) (j + 1) _ k a (omega arith) (omega arith)
    ∙ ap (dir_entry pte) (omega arith)

pub init_pte_outside :
    (pte n i : ℕ) (m : ℕ → ℕ) (a : ℕ)
    → ((k : ℕ) → k < n → word_at pte (i + k) ≢ a)
    → init_pte pte n i m a ≡ m a
unfolding init_pte
init_pte_outside pte zero i m a h = refl
init_pte_outside pte (suc n) i m a h =
    init_pte_outside pte n (i + 1) (write m (word_at pte i) (frame_entry i)) a
      (λ k l e. h (suc k) (omega arith) (omega arith))
    ∙ write_ne m (word_at pte i) (frame_entry i) a (λ e. h 0 (omega arith) (omega arith))

init_pte_inside :
    (pte n i : ℕ) (m : ℕ → ℕ) (k a : ℕ)
    → k < n
    → a ≡ word_at pte (i + k)
    → init_pte pte n i m a ≡ frame_entry (i + k)
unfolding init_pte
init_pte_inside pte zero i m k a h e = absurd (omega arith)
init_pte_inside pte (suc n) i m zero a h e =
    init_pte_outside pte n (i + 1) (write m (word_at pte i) (frame_entry i)) a
      (λ k l f. omega arith)
    ∙ let f : a ≡ word_at pte i = omega arith in
      rw f (write_self m (word_at pte i) (frame_entry i) ∙ ap frame_entry (omega arith))
init_pte_inside pte (suc n) i m (suc k) a h e =
    init_pte_inside pte n (i + 1) _ k a (omega arith) (omega arith) ∙ ap frame_entry (omega arith)

-- Where the linker puts the two arrays: whole pages of the kernel image, apart from each other.
pub record IsPlaced (pgd pte : ℕ) : Type 0 where
  pub pte_aligned : pte % 2 ^ 12 ≡ 0
  pub pte_above : page_offset < pte
  pub pte_below : pte + 2 ^ 19 ≤ 2 ^ 32
  pub separate : (pgd + 2 ^ 12 ≤ pte) ⊎ (pte + 2 ^ 19 ≤ pgd)

module _ (pgd pte : ℕ) (placed : IsPlaced pgd pte) (s : Machine) where
  abbrev pub booted : ℕ → ℕ
  booted = (init_vmm pgd pte s).mem

  dir_value :
      (j : ℕ) → j < 128 → bit_and (dir_entry pte j) page_mask ≡ pte - page_offset + 2 ^ 12 * j
  dir_value j h =
      let q = (pte - page_offset + 2 ^ 12 * j) / 2 ^ 12 in
      let e : sub32 (pte + page_size * j) page_offset ≡ q * 2 ^ 12 =
        omega (arith, placed.pte_aligned, placed.pte_above, placed.pte_below) in
      let f = ap (λ (t : ℕ). bit_or (bit_or t page_present) page_write) e ∙ present_write_lem q in
      ap (λ (t : ℕ). bit_and t page_mask) f
      ∙ mask_lem (q * 2 ^ 12 + 3) (omega (arith, placed.pte_above, placed.pte_below))
      ∙ omega (arith, placed.pte_aligned, placed.pte_above)

  pub booted-table :
      (j : ℕ) → j < 128 → table_of booted pgd (768 + j) ≡ pte - page_offset + 2 ^ 12 * j
  unfolding init_vmm
  booted-table j h =
      ap (λ (t : ℕ). bit_and t page_mask)
        (init_pte_outside pte (pte_count * pte_size - 1) 1 _ (word_at pgd (768 + j))
            (λ k l e. omega (arith, placed.separate))
          ∙ init_pgd_inside pgd pte pte_count 768 0 s.mem j _ h refl
          ∙ ap (dir_entry pte) (omega arith))
      ∙ dir_value j h

  booted-frame : (i : ℕ) → 0 < i → i < 2 ^ 17 → booted (word_at pte i) ≡ i * 2 ^ 12 + 3
  unfolding init_vmm
  booted-frame i pos h =
      init_pte_inside pte (pte_count * pte_size - 1) 1 _ (i - 1) _ (omega arith) (omega arith)
      ∙ ap frame_entry (omega arith)
      ∙ let e : u32 (shl i 12) ≡ i * 2 ^ 12 = omega arith in
        ap (λ (t : ℕ). bit_or (bit_or t page_present) page_write) e ∙ present_write_lem i

  booted_zero : booted pte ≡ s.mem pte
  unfolding init_vmm
  booted_zero =
      init_pte_outside pte (pte_count * pte_size - 1) 1 _ pte (λ k l e. omega arith)
      ∙ init_pgd_outside pgd pte pte_count 768 0 s.mem pte (λ k l e. omega (arith, placed.separate))

  -- The word that `get_mapping` reads for `PAGE_OFFSET + x` is entry `x / 4096` of the tables.
  linear_entry :
      (x : ℕ)
      → x < 2 ^ 29
      → word_at
          (u32 (table_of booted pgd (pgd_index (page_offset + x)) + page_offset))
          (pte_index (page_offset + x))
        ≡ word_at pte (x / 2 ^ 12)
  linear_entry x h =
      let i : pgd_index (page_offset + x) ≡ 768 + x / 2 ^ 22 =
        omega (arith, pgd_index_lem (page_offset + x)) in
      rw (i, booted-table (x / 2 ^ 22) (omega arith), pte_index_lem)
        (omega (arith, placed.pte_above, placed.pte_below))

  linear_table : (x : ℕ) → x < 2 ^ 29 → table_of booted pgd (pgd_index (page_offset + x)) ≢ 0
  linear_table x h =
      let i : pgd_index (page_offset + x) ≡ 768 + x / 2 ^ 22 =
        omega (arith, pgd_index_lem (page_offset + x)) in
      rw (i, booted-table (x / 2 ^ 22) (omega arith)) (omega (arith, placed.pte_above))

  linear-get_mapping :
      (x e : ℕ)
      → x < 2 ^ 29
      → booted (word_at pte (x / 2 ^ 12)) ≡ e
      → get_mapping pgd (page_offset + x) true (init_vmm pgd pte s) ≡ (
          if e == 0
          then record { ret = some 0; pa = none }
          else record { ret = some 1; pa = some (bit_and e page_mask) })
  linear-get_mapping x e h v =
      let word = ap booted (linear_entry x h) ∙ v in
      unfold get_mapping in ground (arith, linear_table x h, word)

  -- After `init_vmm` the first 512 MB of physical memory are mapped from `PAGE_OFFSET` on, each
  -- page to its own frame, except the first page, which has no mapping if its table entry was zero.
  pub init_vmm-get_mapping :
      (x : ℕ)
      → x < 2 ^ 29
      → s.mem pte ≡ 0
      → get_mapping pgd (page_offset + x) true (init_vmm pgd pte s) ≡ (
          if ltb x page_size
          then record { ret = some 0; pa = none }
          else record { ret = some 1; pa = some (x / 2 ^ 12 * 2 ^ 12) })
  init_vmm-get_mapping x h z = elim (ltb-cases x page_size) [
    | inl first ↦
        let a : word_at pte (x / 2 ^ 12) ≡ pte = omega arith in
        linear-get_mapping x 0 h (ap booted a ∙ booted_zero ∙ z)
        ∙ rw (lt→ltb x page_size first) refl
    | inr later ↦
        linear-get_mapping x _ h (booted-frame (x / 2 ^ 12) (omega arith) (omega arith))
        ∙ ground (arith, mask_lem (x / 2 ^ 12 * 2 ^ 12 + 3))
  ]
