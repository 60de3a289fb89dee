-- ===== src/Idt/Tests.antt =====
-- Interrupts at concrete states, for src/idt/idt.c.
use bit_simple_kernel.Prelude.{ℕ, ◌+◌, ◌*◌, ◌%◌, ◌≡◌, arith, none, some, [], ◌∷◌}
use bit_simple_kernel.Console.{outb}
use bit_simple_kernel.Idt.{
  PtRegs, Idt, sent, called, zero_entry, register_interrupt_handler, isr_handler, irq_handler,
}
use bit_simple_kernel.Idt.Dispatch.{register-dispatch}

abbrev regs : PtRegs
regs = record {
  ds = 16;
  edi = 0;
  esi = 0;
  ebp = 0;
  esp = 0;
  ebx = 0;
  edx = 0;
  ecx = 0;
  eax = 0;
  int_no = 41;
  err_code = 0;
  eip = 0xC0100000;
  cs = 8;
  eflags = 0x200;
  user_esp = 0;
  ss = 16;
}

abbrev empty_idt : Idt ℕ
empty_idt = record {
  idt_entries = λ _. zero_entry;
  idt_ptr = record { limit = 0; base = 0 };
  interrupt_handlers = λ _. none;
  ports = [];
}

register-dispatch_example :
    (isr_handler regs (register_interrupt_handler 41 7 empty_idt) ≡ some (called 7 regs ∷ []))
    × (irq_handler regs (register_interrupt_handler 41 7 empty_idt)
        ≡ some (sent (outb 0xA0 0x20) ∷ sent (outb 0x20 0x20) ∷ called 7 regs ∷ []))
register-dispatch_example = register-dispatch 41 7 regs empty_idt (omega arith) (omega arith)

abbrev stub : ℕ → ℕ
stub n = 0xC0100000 + 16 * (n % 256)
