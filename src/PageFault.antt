-- ===== src/PageFault.antt =====
-- The handler of page faults: src/mm/page_fault.c. It stands for what it does before its last loop,
-- which never ends. Of the saved registers it reads two.
pub mod Report
mod Tests
use bit_simple_kernel.Prelude.{
  ℕ, ◌==◌, bit_and, if◌then◌else◌, List, [], ◌∷◌, chars, Cmd, ok, and_then, ◌>>=◌, ◌>>◌, pure,
}
use bit_simple_kernel.Console.{rc_black, rc_red, color}
use bit_simple_kernel.Idt.{PtRegs}
use bit_simple_kernel.Printk.Output.{Tty, printk, printk_color}

-- `printk_color(rc_black, rc_red, …)`.
unfoldable pub warn : List ℕ → Cmd Tty (Unit {0})
warn text = printk_color (color rc_black) (color rc_red) text []

unfoldable pub page_fault : PtRegs → ℕ → Cmd Tty (Unit {0})
page_fault regs cr2 = do
  printk (chars "Page fault at 0x%x, virtual faulting address 0x%x\n") (regs.eip ∷ cr2 ∷ [])
  printk (chars "Error code: %x\n") (regs.err_code ∷ [])
  (if bit_and regs.err_code 0x1 == 0
      then warn (chars "Because the page wasn't present.\n")
      else pure tt)
  (if bit_and regs.err_code 0x2 == 0
      then warn (chars "Read error.\n")
      else warn (chars "Write error.\n"))
  (if bit_and regs.err_code 0x4 == 0
      then warn (chars "In kernel mode.\n")
      else warn (chars "In user mode.\n"))
  (if bit_and regs.err_code 0x8 == 0
      then pure tt
      else warn (chars "Reserved bits being overwritten.\n"))
  (if bit_and regs.err_code 0x10 == 0
      then pure tt
      else warn (chars "The fault occurred during an instruction fetch.\n"))
