-- ===== src/Vmm/Space.antt =====
-- A page directory with its tables, what it says of an address, and the effect of one store.
use bit_simple_kernel.Prelude.{
  ℕ, ◌+◌, ◌/◌, ◌%◌, ◌^◌, ◌<◌, ◌≡◌, ◌∙◌, sym, refl, ap, ◌≢◌, ◌==◌, u32, write, write_self, write_ne,
  bit_and, if◌then◌else◌, arith,
}
use native.Mathlib.Decide.{ℕ_discrete}
use bit_simple_kernel.Vmm.{page_offset, page_mask, pgd_index, pte_index, word_at, table_of}
use bit_simple_kernel.Vmm.Index.{pgd_index_lem, pte_index_lem, mask_lem}

-- Where the kernel sees the table at a physical address.
abbrev pub kernel_of : ℕ → ℕ
kernel_of t = u32 (t + page_offset)

-- The directory and the tables are pages, no two of which are the same.
pub record IsSpace (m : ℕ → ℕ) (pgd : ℕ) : Type 0 where
  pub words : (a : ℕ) → m a < 2 ^ 32
  pub aligned : pgd % 2 ^ 12 ≡ 0
  pub off_dir : (i : ℕ) → i < 1024 → table_of m pgd i ≢ 0 → kernel_of (table_of m pgd i) ≢ pgd
  pub apart :
      (i j : ℕ)
      → i < 1024
      → j < 1024
      → table_of m pgd i ≢ 0
      → table_of m pgd i ≡ table_of m pgd j
      → i ≡ j

-- The address of the table entry for `va`, and the entry; 0 where there is no table.
abbrev pub entry_address : (ℕ → ℕ) → ℕ → ℕ → ℕ
entry_address m pgd va = word_at (kernel_of (table_of m pgd (pgd_index va))) (pte_index va)

abbrev pub entry_at : (ℕ → ℕ) → ℕ → ℕ → ℕ
entry_at m pgd va = if table_of m pgd (pgd_index va) == 0 then 0 else m (entry_address m pgd va)

pub pgd_index-lt : (va : ℕ) → va < 2 ^ 32 → pgd_index va < 1024
pgd_index-lt va h = omega (arith, pgd_index_lem va h)

pub pte_index-lt : (va : ℕ) → pte_index va < 1024
pte_index-lt va = omega (arith, pte_index_lem va)

-- Two addresses with the same indices lie in one page.
pub page_of_indices :
    (va vb : ℕ)
    → va < 2 ^ 32
    → vb < 2 ^ 32
    → pgd_index va ≡ pgd_index vb
    → pte_index va ≡ pte_index vb
    → va / 2 ^ 12 ≡ vb / 2 ^ 12
page_of_indices va vb h k p q = omega (
  arith,
  sym (pgd_index_lem va h) ∙ p ∙ pgd_index_lem vb k,
  sym (pte_index_lem va) ∙ q ∙ pte_index_lem vb,
)

-- Words of different pages have different addresses.
pub word_ne :
    (a b i j : ℕ)
    → a % 2 ^ 12 ≡ 0
    → b % 2 ^ 12 ≡ 0
    → a ≢ b
    → i < 1024
    → j < 1024
    → word_at a i ≢ word_at b j
word_ne a b i j p q ne h k e = ne (omega arith)

pub table-aligned : (x : ℕ) → x < 2 ^ 32 → bit_and x page_mask % 2 ^ 12 ≡ 0
table-aligned x h = omega (arith, mask_lem x h)

pub table-lt : (x : ℕ) → x < 2 ^ 32 → bit_and x page_mask < 2 ^ 32
table-lt x h = omega (arith, mask_lem x h)

pub kernel_of-aligned : (t : ℕ) → t % 2 ^ 12 ≡ 0 → kernel_of t % 2 ^ 12 ≡ 0
kernel_of-aligned t h = omega arith

pub kernel_of_injective : (t u : ℕ) → t < 2 ^ 32 → u < 2 ^ 32 → kernel_of t ≡ kernel_of u → t ≡ u
kernel_of_injective t u h k e = omega arith

-- The entries of addresses in different pages are different words.
entry_address_ne :
    (m : ℕ → ℕ) (pgd : ℕ)
    → IsSpace m pgd
    → (va vb : ℕ) → va < 2 ^ 32
    → vb < 2 ^ 32
    → table_of m pgd (pgd_index va) ≢ 0
    → table_of m pgd (pgd_index vb) ≢ 0
    → va / 2 ^ 12 ≢ vb / 2 ^ 12
    → entry_address m pgd va ≢ entry_address m pgd vb
entry_address_ne m pgd sp va vb h k ta tb ne e =
    elim (ℕ_discrete (table_of m pgd (pgd_index va)) (table_of m pgd (pgd_index vb))) [
      | yes same ↦
          let i = sp.apart _ _ (pgd_index-lt va h) (pgd_index-lt vb k) ta same in
          let j : pte_index va ≡ pte_index vb = omega (arith, ap kernel_of same) in
          ne (page_of_indices va vb h k i j)
      | no other ↦
          word_ne (kernel_of (table_of m pgd (pgd_index va)))
            (kernel_of (table_of m pgd (pgd_index vb))) (pte_index va) (pte_index vb)
            (kernel_of-aligned _ (table-aligned _ (sp.words _)))
            (kernel_of-aligned _ (table-aligned _ (sp.words _)))
            (λ f.
              other (kernel_of_injective _ _ (table-lt _ (sp.words _)) (table-lt _ (sp.words _)) f))
            (pte_index-lt va) (pte_index-lt vb) e
    ]

-- A store of `v` to the entry of `va` in an existing table.
module _ (m : ℕ → ℕ) (pgd : ℕ) (sp : IsSpace m pgd) (va : ℕ) (va_small : va < 2 ^ 32)
    (has_table : table_of m pgd (pgd_index va) ≢ 0) (v : ℕ) where
  abbrev stored : ℕ → ℕ
  stored = write m (entry_address m pgd va) v

  -- It leaves the directory alone,
  pub stored-table : (i : ℕ) → i < 1024 → table_of stored pgd i ≡ table_of m pgd i
  stored-table i h = ap (λ (x : ℕ). bit_and x page_mask) (write_ne m _ v (word_at pgd i) away)
    where
      t : ℕ
      t = table_of m pgd (pgd_index va)

      away : word_at pgd i ≢ entry_address m pgd va
      away =
          word_ne pgd (kernel_of t) i (pte_index va) sp.aligned
            (kernel_of-aligned t (table-aligned _ (sp.words _)))
            (λ e. sp.off_dir (pgd_index va) (pgd_index-lt va va_small) has_table (sym e)) h
            (pte_index-lt va)

  -- sets the entry of `va`,
  pub stored_self : entry_at stored pgd va ≡ v
  stored_self =
      rw (stored-table (pgd_index va) (pgd_index-lt va va_small))
        (ground (arith, write_self m (entry_address m pgd va) v))

  -- leaves the entries of all other pages,
  pub stored_other :
      (vb : ℕ)
      → vb < 2 ^ 32
      → va / 2 ^ 12 ≢ vb / 2 ^ 12
      → entry_at stored pgd vb ≡ entry_at m pgd vb
  stored_other vb small ne =
      rw (stored-table (pgd_index vb) (pgd_index-lt vb small))
        (elim (ℕ_discrete (table_of m pgd (pgd_index vb)) 0) [
          | yes e ↦ ground arith
          | no used ↦
              rw
                (write_ne m (entry_address m pgd va) v (entry_address m pgd vb)
                  (λ e. entry_address_ne m pgd sp va vb va_small small has_table used ne (sym e)))
                refl
        ])

  -- and keeps the space.
  pub stored-IsSpace : v < 2 ^ 32 → IsSpace stored pgd
  stored-IsSpace small = record {
    words = λ a. stored_small a;
    aligned = sp.aligned;
    off_dir = λ i h. rw (stored-table i h) (sp.off_dir i h);
    apart = λ i j h k. rw (stored-table i h, stored-table j k) (sp.apart i j h k);
  }
    where
      stored_small : (a : ℕ) → stored a < 2 ^ 32
      stored_small a = unfold write in ground (arith, sp.words a)
