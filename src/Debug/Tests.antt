-- ===== src/Debug/Tests.antt =====
-- A panic with one frame on the stack.
use bit_simple_kernel.Prelude.{◌==◌, ◌≡◌, refl, if◌then◌else◌, [], ◌∷◌, ok, arith}
use bit_simple_kernel.Melf.{Elf, lookup_from}
use bit_simple_kernel.Printk.Output.{Tty, with_lines}
use bit_simple_kernel.Debug.{panic}
use bit_simple_kernel.Debug.Trace.{Frame, IsShown, IsStack, panic_lines, panic-Trace}

-- A symbol table with one function, whose name stands at 96.
abbrev image : Elf
image = record {
  symtab = λ _. record { name = 32; value = 0x100; size = 0x40; info = 2; other = 0; shndx = 0 };
  symtabsz = 16;
  strtab = 64;
  strtabsz = 40;
}

-- The name "f" at 96, the message "no" at 112, and a frame at 16, which returns to 0x120.
abbrev screen : Tty
screen = record {
  console = record { video_memory = λ _. 0; cursor_x = 0; cursor_y = 0; ports = [] };
  mem = λ a.
      if a == 96
      then b'f'
      else if a == 112
      then b'n'
      else if a == 113
      then b'o'
      else if a == 20
      then 0x20
      else if a == 21
      then 1
      else 0;
}

abbrev frame : Frame
frame = record { ebp = 16; eip = 0x120; name = b'f' ∷ [] }

message-IsShown : IsShown screen.mem 112 (b'n' ∷ b'o' ∷ [])
message-IsShown = (
  (refl, λ e. omega (arith, e), omega arith, (refl, λ e. omega (arith, e), omega arith, refl)),
  omega arith,
)

frames-IsStack : IsStack screen.mem image 16 (frame ∷ [])
unfolding lookup_from
frames-IsStack = (
  refl,
  λ e. omega (arith, e),
  refl,
  ((refl, λ e. omega (arith, e), omega arith, refl), omega arith),
  refl,
)

panic-Trace_example :
    panic image 16 112 screen
    ≡ ok tt (with_lines 0 15 (panic_lines (b'n' ∷ b'o' ∷ []) (frame ∷ [])) screen)
panic-Trace_example =
    panic-Trace image 16 112 (b'n' ∷ b'o' ∷ []) (frame ∷ []) screen message-IsShown frames-IsStack
      (omega arith)
