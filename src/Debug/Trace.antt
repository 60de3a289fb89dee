-- ===== src/Debug/Trace.antt =====
-- What `panic` of src/kernel/debug/debug.c prints.
use bit_simple_kernel.Prelude.{
  ℕ, zero, suc, ◌+◌, ◌<◌, ◌≤◌, ◌==◌, ◌≡◌, ◌≢◌, refl, u32, word, List, [], ◌∷◌, ◌++◌, chars, ok,
  length, length-append, false, arith,
}
use bit_simple_kernel.Strings.Texts.{IsText}
use bit_simple_kernel.Melf.{Elf, elf_lookup_symbol}
use bit_simple_kernel.Printk.Directive.{lower_hex, text}
use bit_simple_kernel.Printk.Output.{
  Tty, printk, with_text, with_lines, with_lines-append, buffer_size,
}
use bit_simple_kernel.Printk.Plain.{
  hex_digits, hex_of_lem, length-hex_digits, shown-text, said, printk-plain, printk-around,
  printk-around_two,
}
use bit_simple_kernel.Debug.{trace_from, trace_fuel, panic}

-- A name or a message stands in memory and leaves room in a line.
abbrev pub IsShown : (ℕ → ℕ) → ℕ → List ℕ → Type 0
IsShown m a xs = IsText m a xs × (length xs ≤ 980)

-- A frame of the stack: where it is, the address that it returns to, and the name of the function
-- there.
pub record Frame : Type 0 where
  pub ebp : ℕ
  pub eip : ℕ
  pub name : List ℕ

-- The stack from `ebp` on consists of the frames; the last one links to no other.
abbrev pub IsStack : (ℕ → ℕ) → Elf → ℕ → List Frame → Type 0
IsStack m elf ebp [] = ebp ≡ 0
IsStack m elf ebp (f ∷ fs) =
    (ebp ≡ f.ebp)
    × (f.ebp ≢ 0)
    × (word m (u32 (f.ebp + 4)) ≡ f.eip)
    × IsShown m (elf_lookup_symbol f.eip elf) f.name
    × IsStack m elf (word m f.ebp) fs

-- The line for a frame.
abbrev pub line_of : Frame → List ℕ
line_of f = chars "  [0x" ++ (hex_digits f.eip ++ (chars "] " ++ (f.name ++ chars "\n")))

abbrev pub lines_of : List Frame → List (List ℕ)
lines_of [] = []
lines_of (f ∷ fs) = line_of f ∷ lines_of fs

-- The line that `panic` starts with, and all that it prints.
abbrev pub head_line : List ℕ → List ℕ
head_line msg = chars "--------- System panic: " ++ (msg ++ chars " ---------\n")

abbrev pub panic_lines : List ℕ → List Frame → List (List ℕ)
panic_lines msg fs = (head_line msg ∷ lines_of fs) ++ chars "---------\n" ∷ []

-- A line with a number and a name, and one with a message.
line-short : (f : Frame) → length f.name ≤ 980 → length (line_of f) < buffer_size
unfolding chars
line-short f h = omega (
  arith,
  h,
  length-hex_digits f.eip,
  length-append (hex_digits f.eip) (chars "] " ++ (f.name ++ chars "\n")),
  length-append f.name (chars "\n"),
)

head-short : (msg : List ℕ) → length msg ≤ 980 → length (head_line msg) < buffer_size
unfolding chars
head-short msg h = omega (arith, h, length-append msg (chars " ---------\n"))

printk-line :
    (elf : Elf) (f : Frame) (s : Tty)
    → IsShown s.mem (elf_lookup_symbol f.eip elf) f.name
    → printk (chars "  [0x%x] %s\n") (f.eip ∷ elf_lookup_symbol f.eip elf ∷ []) s
      ≡ ok tt (with_text 0 15 (line_of f) s)
unfolding chars
printk-line elf f s named =
    let a = elf_lookup_symbol f.eip elf in
    let line_is : said (chars "  [0x") (lower_hex f.eip)
          (said (chars "] ") (text a f.name) (chars "\n"))
        ≡ line_of f =
      rw (hex_of_lem f.eip, shown-text a f.name) refl in
    (printk-around_two (chars "  [0x") (lower_hex f.eip) (chars "] ") (text a f.name) (chars "\n")
      (line_of f) s refl refl refl tt (named.0, omega (arith, named.1)) line_is
      (line-short f named.1) 0 15).1

printk-head :
    (a : ℕ) (msg : List ℕ) (s : Tty)
    → IsShown s.mem a msg
    → printk (chars "--------- System panic: %s ---------\n") (a ∷ []) s
      ≡ ok tt (with_text 0 15 (head_line msg) s)
unfolding chars
printk-head a msg s named =
    let line_is : said (chars "--------- System panic: ") (text a msg) (chars " ---------\n")
        ≡ head_line msg =
      rw (shown-text a msg) refl in
    (printk-around (chars "--------- System panic: ") (text a msg) (chars " ---------\n")
      (head_line msg) s refl refl (named.0, omega (arith, named.1)) line_is (head-short msg named.1)
      0 15).1

printk-last :
    (s : Tty) → printk (chars "---------\n") [] s ≡ ok tt (with_text 0 15 (chars "---------\n") s)
unfolding chars
printk-last s = (printk-plain (chars "---------\n") s refl (omega arith) 0 15).1

trace_from-IsStack :
    (fuel : ℕ) (elf : Elf) (ebp : ℕ) (fs : List Frame) (s : Tty)
    → length fs < fuel
    → IsStack s.mem elf ebp fs
    → trace_from fuel elf ebp s ≡ ok tt (with_lines 0 15 (lines_of fs) s)
unfolding trace_from
trace_from-IsStack zero elf ebp fs s h stack = absurd (omega arith)
trace_from-IsStack (suc fuel) elf ebp [] s h stack = rw stack refl
trace_from-IsStack (suc fuel) elf ebp (f ∷ fs) s h stack =
    let more : (f.ebp == 0) ≡ false = ground (arith, stack.1) in
    rw (stack.0, more, stack.2, printk-line elf f s stack.3)
      (trace_from-IsStack fuel elf (word s.mem f.ebp) fs (with_text 0 15 (line_of f) s)
        (omega arith) stack.4)

-- `panic` with a message in memory, on a stack of frames each of which returns into a function with
-- a name, gets to its last loop: it follows the frames to the end, and it has printed the message, a
-- line for each frame, the innermost first, with the address that it returns to in base 16 and the
-- name of the function there, and a line that closes the trace. The message and the names have 980
-- characters at most.
pub panic-Trace :
    (elf : Elf) (ebp a : ℕ) (msg : List ℕ) (fs : List Frame) (s : Tty)
    → IsShown s.mem a msg
    → IsStack s.mem elf ebp fs
    → length fs < trace_fuel
    → panic elf ebp a s ≡ ok tt (with_lines 0 15 (panic_lines msg fs) s)
unfolding panic
panic-Trace elf ebp a msg fs s named stack few =
    let t = with_text 0 15 (head_line msg) s in
    rw
      (
        printk-head a msg s named,
        trace_from-IsStack trace_fuel elf ebp fs t few stack,
        with_lines-append 0 15 (lines_of fs) (chars "---------\n" ∷ []) t,
      )
      (printk-last (with_lines 0 15 (lines_of fs) t))
