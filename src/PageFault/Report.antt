-- ===== src/PageFault/Report.antt =====
-- What `page_fault` of src/mm/page_fault.c reports of an error code.
use bit_simple_kernel.Prelude.{
  ℕ, ◌/◌, ◌%◌, ◌^◌, ◌<◌, ◌==◌, ◌≡◌, ap, sym, refl, if◌then◌else◌, Bool, true, false, bit_and, List,
  [], ◌∷◌, ◌++◌, chars, ok, length, length-append, pure, not, arith,
}
use bit_simple_kernel.Prelude.Bits.{bit_and_bit}
use bit_simple_kernel.Idt.{PtRegs}
use bit_simple_kernel.Printk.Directive.{lower_hex}
use bit_simple_kernel.Printk.Output.{
  Tty, printk, with_text, with_lines, with_lines-append, buffer_size,
}
use bit_simple_kernel.Printk.Plain.{
  is_plain, hex_digits, hex_of_lem, length-hex_digits, printk-plain, printk-around,
  printk-around_two,
}
use bit_simple_kernel.Console.{rc_black, rc_red, color}
use bit_simple_kernel.PageFault.{page_fault, warn}

-- Bit `k` of a word.
abbrev pub bit : ℕ → ℕ → Bool
bit k a = a / 2 ^ k % 2 == 1

-- The two lines about the registers, in white on black.
abbrev pub place_line : ℕ → ℕ → List ℕ
place_line eip cr2 =
    chars "Page fault at 0x"
    ++ (hex_digits eip ++ (chars ", virtual faulting address 0x" ++ (hex_digits cr2 ++ chars "\n")))

abbrev pub code_line : ℕ → List ℕ
code_line err_code = chars "Error code: " ++ (hex_digits err_code ++ chars "\n")

-- What there is to say about the bits of the error code.
abbrev absent : List ℕ
absent = chars "Because the page wasn't present.\n"

abbrev writing : List ℕ
writing = chars "Write error.\n"

abbrev reading : List ℕ
reading = chars "Read error.\n"

abbrev in_user : List ℕ
in_user = chars "In user mode.\n"

abbrev in_kernel : List ℕ
in_kernel = chars "In kernel mode.\n"

abbrev reserved : List ℕ
reserved = chars "Reserved bits being overwritten.\n"

abbrev fetching : List ℕ
fetching = chars "The fault occurred during an instruction fetch.\n"

-- The lines for an error code, in red on black.
abbrev pub reasons : ℕ → List (List ℕ)
reasons err_code =
    (if bit 0 err_code then [] else absent ∷ [])
    ++ (if bit 1 err_code then writing else reading) ∷ []
    ++ (if bit 2 err_code then in_user else in_kernel) ∷ []
    ++ (if bit 3 err_code then reserved ∷ [] else [])
    ++ (if bit 4 err_code then fetching ∷ [] else [])

abbrev IsWarning : List ℕ → Type 0
IsWarning l = (is_plain l ≡ true) × (length l < buffer_size)

-- A warning of a short plain text.
module _ (a : List ℕ) (s : Tty) where
  warn-ok : IsWarning a → warn a s ≡ ok tt (with_text (color rc_black) (color rc_red) a s)
  unfolding warn
  warn-ok h = (printk-plain a s h.0 h.1 (color rc_black) (color rc_red)).0

  warn-unless :
      (c : Bool)
      → IsWarning a
      → (if not c then warn a else pure tt) s
        ≡ ok tt (with_lines (color rc_black) (color rc_red) (if c then [] else a ∷ []) s)
  warn-unless true h = refl
  warn-unless false h = warn-ok h

  warn-if :
      (c : Bool)
      → IsWarning a
      → (if not c then pure tt else warn a) s
        ≡ ok tt (with_lines (color rc_black) (color rc_red) (if c then a ∷ [] else []) s)
  warn-if true h = warn-ok h
  warn-if false h = refl

warn-either :
    (a b : List ℕ) (s : Tty) (c : Bool)
    → IsWarning a
    → IsWarning b
    → (if not c then warn b else warn a) s
      ≡ ok tt (with_lines (color rc_black) (color rc_red) ((if c then a else b) ∷ []) s)
warn-either a b s true h g = warn-ok a s h
warn-either a b s false h g = warn-ok b s g

-- The two lines about the registers.
printk-place :
    (eip cr2 : ℕ) (s : Tty)
    → printk (chars "Page fault at 0x%x, virtual faulting address 0x%x\n") (eip ∷ cr2 ∷ []) s
      ≡ ok tt (with_text 0 15 (place_line eip cr2) s)
unfolding chars
printk-place eip cr2 s =
    (printk-around_two (chars "Page fault at 0x") (lower_hex eip)
      (chars ", virtual faulting address 0x") (lower_hex cr2) (chars "\n") (place_line eip cr2) s
      refl refl refl tt tt (rw (hex_of_lem eip, hex_of_lem cr2) refl)
      (omega (
        arith,
        length-hex_digits eip,
        length-hex_digits cr2,
        length-append (hex_digits eip)
            (chars ", virtual faulting address 0x" ++ (hex_digits cr2 ++ chars "\n")),
        length-append (hex_digits cr2) (chars "\n"),
      ))
      0 15).1

printk-code :
    (code : ℕ) (s : Tty)
    → printk (chars "Error code: %x\n") (code ∷ []) s ≡ ok tt (with_text 0 15 (code_line code) s)
unfolding chars
printk-code code s =
    (printk-around (chars "Error code: ") (lower_hex code) (chars "\n") (code_line code) s refl refl
      tt (rw (hex_of_lem code) refl)
      (omega (arith, length-hex_digits code, length-append (hex_digits code) (chars "\n"))) 0 15).1

absent-IsWarning : IsWarning absent
unfolding chars
absent-IsWarning = (refl, omega arith)

writing-IsWarning : IsWarning writing
unfolding chars
writing-IsWarning = (refl, omega arith)

reading-IsWarning : IsWarning reading
unfolding chars
reading-IsWarning = (refl, omega arith)

in_user-IsWarning : IsWarning in_user
unfolding chars
in_user-IsWarning = (refl, omega arith)

in_kernel-IsWarning : IsWarning in_kernel
unfolding chars
in_kernel-IsWarning = (refl, omega arith)

reserved-IsWarning : IsWarning reserved
unfolding chars
reserved-IsWarning = (refl, omega arith)

fetching-IsWarning : IsWarning fetching
unfolding chars
fetching-IsWarning = (refl, omega arith)

-- The same tests on the bits.
module _ (e : ℕ) where
  test₀ : (bit_and e 0x1 == 0) ≡ not (bit 0 e)
  test₀ = ground (arith, bit_and_bit 0 e)

  test₁ : (bit_and e 0x2 == 0) ≡ not (bit 1 e)
  test₁ = ground (arith, bit_and_bit 1 e)

  test₂ : (bit_and e 0x4 == 0) ≡ not (bit 2 e)
  test₂ = ground (arith, bit_and_bit 2 e)

  test₃ : (bit_and e 0x8 == 0) ≡ not (bit 3 e)
  test₃ = ground (arith, bit_and_bit 3 e)

  test₄ : (bit_and e 0x10 == 0) ≡ not (bit 4 e)
  test₄ = ground (arith, bit_and_bit 4 e)

with_five :
    (a b c d e : List (List ℕ)) (s : Tty)
    → let red = with_lines (color rc_black) (color rc_red) in
      red (a ++ b ++ c ++ d ++ e) s ≡ red e (red d (red c (red b (red a s))))
with_five a b c d e s =
    rw
      (
        with_lines-append (color rc_black) (color rc_red) (a ++ b ++ c ++ d) e s,
        with_lines-append (color rc_black) (color rc_red) (a ++ b ++ c) d s,
        with_lines-append (color rc_black) (color rc_red) (a ++ b) c s,
        with_lines-append (color rc_black) (color rc_red) a b s,
      )
      refl

-- `page_fault` gets to its last loop: it prints the address of the instruction and the faulting
-- address in base 16, then the error code, and then in red what the five low bits of the error code
-- say: that the page is not present (bit 0 clear), write or read, user or kernel mode, that a
-- reserved bit is set, and that the fault was in an instruction fetch.
pub page_fault-reasons :
    (regs : PtRegs) (cr2 : ℕ) (s : Tty)
    → page_fault regs cr2 s
      ≡ ok tt (
          with_lines
            (color rc_black)
            (color rc_red)
            (reasons regs.err_code)
            (with_lines 0 15 (place_line regs.eip cr2 ∷ code_line regs.err_code ∷ []) s))
unfolding page_fault
page_fault-reasons regs cr2 s =
    let e = regs.err_code in
    let s₁ = with_text 0 15 (place_line regs.eip cr2) s in
    let s₂ = with_text 0 15 (code_line e) s₁ in
    let red : List (List ℕ) → Tty → Tty = with_lines (color rc_black) (color rc_red) in
    let l₀ = if bit 0 e then [] else absent ∷ [] in
    let l₁ = (if bit 1 e then writing else reading) ∷ [] in
    let l₂ = (if bit 2 e then in_user else in_kernel) ∷ [] in
    let l₃ = if bit 3 e then reserved ∷ [] else [] in
    let l₄ = if bit 4 e then fetching ∷ [] else [] in
    rw
      (
        printk-place regs.eip cr2 s,
        printk-code e s₁,
        test₀ e,
        warn-unless absent s₂ (bit 0 e) absent-IsWarning,
        test₁ e,
        warn-either writing reading (red l₀ s₂) (bit 1 e) writing-IsWarning reading-IsWarning,
        test₂ e,
        warn-either in_user in_kernel (red l₁ (red l₀ s₂)) (bit 2 e) in_user-IsWarning
            in_kernel-IsWarning,
        test₃ e,
        warn-if reserved (red l₂ (red l₁ (red l₀ s₂))) (bit 3 e) reserved-IsWarning,
        test₄ e,
        warn-if fetching (red l₃ (red l₂ (red l₁ (red l₀ s₂)))) (bit 4 e) fetching-IsWarning,
      )
      (ap (λ (t : Tty). ok tt t) (sym (with_five l₀ l₁ l₂ l₃ l₄ s₂)))
