-- ===== src/Timer/Period.antt =====
-- The period that src/drivers/timer.c programs.
use bit_simple_kernel.Prelude.{
  ℕ, ◌+◌, ◌*◌, ◌^◌, ◌≤◌, ◌<◌, ◌==◌, ◌≡◌, some, List, ◌∷◌, if◌then◌else◌,
}
use bit_simple_kernel.Console.{Outb}
use bit_simple_kernel.Idt.{Idt}
use bit_simple_kernel.Timer.{hz}

-- The count that the timer starts from: after the command for channel 0 the two bytes at port 0x40
-- are the low and the high half. The timer takes 0 for 2^16.
abbrev pub count_of : List Outb → ℕ
count_of (high ∷ low ∷ command ∷ ports) =
    let count = low.value + 2 ^ 8 * high.value in if count == 0 then 2 ^ 16 else count
count_of _ = 0

-- The timer is programmed: the callback is that of interrupt 32, and the count divides the clock
-- down to the frequency, rounded down.
pub record Programmed {H : Type 0} (timer_callback : H) (frequency : ℕ) (s : Idt H) : Type 0 where
  pub handler : s.interrupt_handlers 32 ≡ some timer_callback
  pub at_most : count_of s.ports * frequency ≤ hz
  pub below : hz < (count_of s.ports + 1) * frequency
