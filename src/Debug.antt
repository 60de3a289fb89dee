-- ===== src/Debug.antt =====
-- Debugging aids: src/kernel/debug/debug.c. What is read from registers is an argument. A function
-- that ends with `while (1)` stands for what it does before that loop.
pub mod Trace
mod Tests
use bit_simple_kernel.Prelude.{
  ℕ, zero, suc, ◌+◌, ◌*◌, ◌%◌, ◌^◌, ◌==◌, u32, word, bit_and, if◌then◌else◌, List, [], ◌∷◌, chars,
  ok, out_of_fuel, Cmd, and_then, ◌>>=◌, ◌>>◌, pure,
}
use bit_simple_kernel.Melf.{Elf, elf_lookup_symbol}
use bit_simple_kernel.Printk.Output.{Tty, printk}

-- The segment registers.
pub record Segments : Type 0 where
  pub cs : ℕ
  pub ds : ℕ
  pub es : ℕ
  pub ss : ℕ

-- `print_cur_status`; the result is the new value of `round`.
unfoldable pub print_cur_status : ℕ → Segments → Cmd Tty ℕ
print_cur_status round reg = do
  printk (chars "%d: @ring %d\n") (round ∷ bit_and reg.cs 0x3 ∷ [])
  printk (chars "%d:  cs = %x\n") (round ∷ reg.cs ∷ [])
  printk (chars "%d:  ds = %x\n") (round ∷ reg.ds ∷ [])
  printk (chars "%d:  es = %x\n") (round ∷ reg.es ∷ [])
  printk (chars "%d:  ss = %x\n") (round ∷ reg.ss ∷ [])
  pure (u32 (round + 1))

-- The loop of `print_stack_trace` from a value of `ebp` on.
unfoldable pub trace_from : ℕ → Elf → ℕ → Cmd Tty (Unit {0})
trace_from zero elf ebp s = out_of_fuel
trace_from (suc fuel) elf ebp s =
    let eip = word s.mem (u32 (ebp + 4)) in
    let line = printk (chars "  [0x%x] %s\n") (eip ∷ elf_lookup_symbol eip elf ∷ []) s in
    let rest = and_then line λ _ t. trace_from fuel elf (word t.mem ebp) t in
    if ebp == 0 then ok tt s else rest

-- No chain of frames in 32 bits that ends is longer.
abbrev pub trace_fuel : ℕ
trace_fuel = 2 ^ 32

abbrev pub print_stack_trace : Elf → ℕ → Cmd Tty (Unit {0})
print_stack_trace elf ebp = trace_from trace_fuel elf ebp

-- `panic` on the message at `msg`, up to the loop at its end; `ebp` is the register's value in
-- `print_stack_trace`.
unfoldable pub panic : Elf → ℕ → ℕ → Cmd Tty (Unit {0})
panic elf ebp msg = do
  printk (chars "--------- System panic: %s ---------\n") (msg ∷ [])
  print_stack_trace elf ebp
  printk (chars "---------\n") []
