-- ===== src/Entry/Handover.antt =====
-- The end of `kern_entry` of src/init/entry.c: paging is turned on, the stack is switched, and the
-- pointer to the boot data is set, in front of the call of `kern_init`.
use Prim.Native.Nat.{bit_xor}
use bit_simple_kernel.Prelude.{ℕ, ◌+◌, ◌*◌, ◌^◌, ◌<◌, ◌≡◌, u32, bit_and, bit_or, arith}
use bit_simple_kernel.Vmm.{page_offset}
use bit_simple_kernel.Task.{stack_size}
use bit_simple_kernel.Entry.{pgd_tmp}

-- The registers that are set, and the two variables.
pub record Handover : Type 0 where
  pub cr0 : ℕ
  pub cr3 : ℕ
  pub esp : ℕ
  pub ebp : ℕ
  pub kern_stack_top : ℕ
  pub glb_mboot_ptr : ℕ

-- `kern_stack_top` for a stack at `kern_stack`.
abbrev pub stack_top_of : ℕ → ℕ
stack_top_of kern_stack = bit_and (u32 (kern_stack + stack_size)) 0xfffffff0

-- `sizeof(mutilboot_t)`.
abbrev pub mutilboot_size : ℕ
mutilboot_size = 96

-- The sum of the last line is one of a pointer to `mutilboot_t`.
unfoldable pub hand_over : ℕ → ℕ → Handover → Handover
hand_over kern_stack mboot_ptr_tmp s =
    let top = stack_top_of kern_stack in
    record s {
      cr3 = pgd_tmp;
      cr0 = bit_or s.cr0 0x80000000;
      kern_stack_top = top;
      esp = bit_xor top s.ebp;
      glb_mboot_ptr = u32 (mboot_ptr_tmp + mutilboot_size * page_offset);
    }

-- The pointer to the boot data stays the physical address.
pub glb_mboot_ptr-hand_over :
    (kern_stack mboot_ptr_tmp : ℕ) (s : Handover)
    → mboot_ptr_tmp < 2 ^ 32
    → (hand_over kern_stack mboot_ptr_tmp s).glb_mboot_ptr ≡ mboot_ptr_tmp
unfolding hand_over
glb_mboot_ptr-hand_over kern_stack mboot_ptr_tmp s h = omega (arith, h)
