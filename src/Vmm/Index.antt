-- ===== src/Vmm/Index.antt =====
-- The macros of src/include/vmm.h as arithmetic on 32-bit words.
use bit_simple_kernel.Prelude.{
  ℕ, ◌+◌, ◌*◌, ◌/◌, ◌%◌, ◌^◌, ◌<◌, ◌≡◌, ◌∙◌, ap, arith, bit_and, bit_or,
}
use bit_simple_kernel.Prelude.Bits.{
  bit_and_low, bit_and_high, bit_or_fields, bit_or_split, bit_or_zero,
}
use bit_simple_kernel.Vmm.{page_mask, page_present, page_write, pgd_index, pte_index}

pub pgd_index_lem : (va : ℕ) → va < 2 ^ 32 → pgd_index va ≡ va / 2 ^ 22
pgd_index_lem va h = omega (arith, bit_and_low 10 (va / 2 ^ 22))

pub pte_index_lem : (va : ℕ) → pte_index va ≡ va / 2 ^ 12 % 1024
pte_index_lem va = bit_and_low 10 (va / 2 ^ 12)

pub mask_lem : (x : ℕ) → x < 2 ^ 32 → bit_and x page_mask ≡ x / 2 ^ 12 * 2 ^ 12
mask_lem x h = bit_and_high 12 20 x (omega arith)

-- `q` is a page number.
pub flags_lem : (q f : ℕ) → f < 2 ^ 12 → bit_or (q * 2 ^ 12) f ≡ q * 2 ^ 12 + f
flags_lem q f h = bit_or_fields 12 q f h

pub present_write_lem :
    (q : ℕ) → bit_or (bit_or (q * 2 ^ 12) page_present) page_write ≡ q * 2 ^ 12 + 3
present_write_lem q =
    ap (λ (t : ℕ). bit_or t page_write) (flags_lem q 1 (omega arith))
    ∙ bit_or_split 12 q 1 0 2 (omega arith) (omega arith)
    ∙ ap (λ (t : ℕ). t * 2 ^ 12 + 3) (bit_or_zero q)
