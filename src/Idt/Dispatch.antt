-- ===== src/Idt/Dispatch.antt =====
-- Which handler src/idt/idt.c calls for an interrupt, and what it sends to the controllers.
use bit_simple_kernel.Prelude.{
  ℕ, ◌<◌, ◌==◌, leb, write, ◌≡◌, arith, if◌then◌else◌, some, List, [], ◌∷◌, ◌++◌,
}
use bit_simple_kernel.Console.{outb}
use bit_simple_kernel.Idt.{
  PtRegs, Idt, Event, sent, called, register_interrupt_handler, call_or_report, call_if_set,
  isr_handler, irq_handler,
}

-- The end-of-interrupt commands for an interrupt: the controller that raised it, and the master.
abbrev pub acknowledged : {H : Type 0} → ℕ → List (Event H)
acknowledged n = (if leb 40 n then sent (outb 0xA0 0x20) ∷ [] else []) ++ sent (outb 0x20 0x20) ∷ []

-- After a handler is registered for `num`, both dispatchers call it, with the saved registers, for
-- interrupt `num`: `isr_handler` does nothing else, `irq_handler` first acknowledges the interrupt.
-- For every other number both do what they did before. Both numbers are below 256.
pub register-dispatch :
    {H : Type 0} (num : ℕ) (func : H) (regs : PtRegs) (s : Idt H)
    → num < 256
    → regs.int_no < 256
    → (isr_handler regs (register_interrupt_handler num func s)
        ≡ (if regs.int_no == num then some (called func regs ∷ []) else isr_handler regs s))
      × (irq_handler regs (register_interrupt_handler num func s) ≡ (
          if regs.int_no == num
          then some (acknowledged regs.int_no ++ called func regs ∷ [])
          else irq_handler regs s))
unfolding isr_handler irq_handler register_interrupt_handler write call_or_report call_if_set
register-dispatch num func regs s h k = (ground arith, ground arith)
