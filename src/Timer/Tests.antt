-- ===== src/Timer/Tests.antt =====
-- The timer at 200 Hz, as the kernel starts it, for src/drivers/timer.c.
use bit_simple_kernel.Prelude.{ℕ, none, []}
use bit_simple_kernel.Idt.{Idt, zero_entry}

abbrev empty_idt : Idt ℕ
empty_idt = record {
  idt_entries = λ _. zero_entry;
  idt_ptr = record { limit = 0; base = 0 };
  interrupt_handlers = λ _. none;
  ports = [];
}
