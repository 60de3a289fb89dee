-- ===== src/Timer.antt =====
-- The 8253 timer: src/drivers/timer.c.
pub mod Period
mod Tests
use bit_simple_kernel.Prelude.{
  ℕ, ◌/◌, ◌==◌, u8, shr, bit_and, if◌then◌else◌, Option, none, some, ◌∷◌,
}
use bit_simple_kernel.Console.{outb}
use bit_simple_kernel.Idt.{Idt, register_interrupt_handler}

-- `HZ` and `IRQ0`.
abbrev pub hz : ℕ
hz = 1193180

abbrev pub irq0 : ℕ
irq0 = 32

-- The three port writes, the last one first.
unfoldable pub set_divisor : {H : Type 0} → ℕ → Idt H → Idt H
set_divisor divisor s =
    let low = u8 (bit_and divisor 0xff) in
    let high = u8 (bit_and (shr divisor 8) 0xff) in
    record s { ports = outb 0x40 high ∷ outb 0x40 low ∷ outb 0x43 0x36 ∷ s.ports }

-- `none` is the division by zero.
unfoldable pub init_timer : {H : Type 0} → H → ℕ → Idt H → Option (Idt H)
init_timer timer_callback frequency s =
    let s₁ = register_interrupt_handler irq0 timer_callback s in
    if frequency == 0 then none else some (set_divisor (hz / frequency) s₁)
