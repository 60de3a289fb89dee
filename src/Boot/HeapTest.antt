-- ===== src/Boot/HeapTest.antt =====
-- `test_heap` of src/mm/heap.c on an empty heap.
use bit_simple_kernel.Prelude.{
  ℕ, ◌<◌, ◌≤◌, ◌≡◌, refl, true, List, [], ◌∷◌, ◌++◌, arith, chars, Run, ok, Cmd, ◌>>=◌, ◌>>◌,
  Returns,
}
use bit_simple_kernel.Console.{color, rc_black, rc_magenta}
use bit_simple_kernel.Heap.{Heap, heap_start, kmalloc, kfree}
use bit_simple_kernel.Heap.Release.{Holds}
use bit_simple_kernel.Task.{on_heap}
use bit_simple_kernel.Printk.{
  number, fill, prefix, sign_of, magnitude, number_digits, put_digits, digit, replicate,
}
use bit_simple_kernel.Printk.Directive.{format_of, args_of, text_of}
use bit_simple_kernel.Printk.Output.{with_text, buffer_size}
use bit_simple_kernel.Printk.Plain.{is_plain, printk-plain}
use bit_simple_kernel.Printk.Lines.{room}
use bit_simple_kernel.Boot.Kernel.{Kernel, on_sched, print, print_color, test_heap}
use bit_simple_kernel.Boot.HeapRun.{
  first, second, third, fourth, free_first, free_second, free_third, free_fourth, emptied,
  pages_left,
}
use bit_simple_kernel.Boot.Reports.{
  Line, white, with_log, with_tty, with_heap, bind-ok, print-ok, on_heap-ok, hex_line,
  hex_line-Prints,
}

-- What is printed.
abbrev pub test_log : List Line
test_log =
    record {
      back = color rc_black;
      fore = color rc_magenta;
      text = chars "Test kmalloc() && kfree() now ...\n\n";
    }
    ∷ white (chars "kmalloc     50 bytes in 0xE0000010\n")
    ∷ white (chars "kmalloc    500 bytes in 0xE0000052\n")
    ∷ white (chars "kmalloc   5000 bytes in 0xE0000256\n")
    ∷ white (chars "kmalloc  50000 bytes in 0xE00015EE\n")
    ∷ white (chars "free mem in 0xE0000010\n")
    ∷ white (chars "free mem in 0xE0000052\n")
    ∷ white (chars "free mem in 0xE0000256\n")
    ∷ white (chars "free mem in 0xE00015EE\n")
    ∷ []

-- `text`, the number and a new line make up the line.
abbrev Spells : List ℕ → ℕ → List ℕ → Type 0
Spells t n line =
    let ds = hex_line t n (chars "\n") in
    (is_plain t ≡ true)
    × (room ds < buffer_size)
    × (format_of ds ≡ t ++ chars "%X\n")
    × (args_of ds ≡ n ∷ [])
    × (text_of ds ≡ line)

hex_print :
    (t : List ℕ) (n : ℕ) (line : List ℕ) (k : Kernel)
    → Spells t n line
    → print (t ++ chars "%X\n") (n ∷ []) k ≡ ok tt (with_tty (with_text 0 15 line k.tty) k)
hex_print t n line k (plain, short, f, a, e) =
    rw (← f, ← a, ← e)
      (print-ok (format_of (hex_line t n (chars "\n"))) (args_of (hex_line t n (chars "\n")))
        (text_of (hex_line t n (chars "\n"))) k 0 15
        (hex_line-Prints t n (chars "\n") k.tty plain (unfold chars in refl) short)).1

-- A call of `kmalloc` with its line.
malloc_step :
    (m : Cmd Heap ℕ) (t : List ℕ) (n : ℕ) (line : List ℕ) (rest : ℕ → Cmd Kernel (Unit {0}))
    (k : Kernel) {h : Heap} {r : Run Kernel (Unit {0})}
    → m k.sched.heap ≡ ok n h
    → Spells t n line
    → rest n (with_tty (with_text 0 15 line k.tty) (with_heap h k)) ≡ r
    → (on_sched (on_heap m) >>= λ a. print (t ++ chars "%X\n") (a ∷ []) >> rest a) k ≡ r
malloc_step m t n line rest k {h} run spells more =
    bind-ok (on_sched (on_heap m)) (λ a. print (t ++ chars "%X\n") (a ∷ []) >> rest a) k
      (on_heap-ok m k run)
      (bind-ok (print (t ++ chars "%X\n") (n ∷ [])) (λ _. rest n) (with_heap h k)
        (hex_print t n line (with_heap h k) spells) more)

-- A call of `kfree` with its line.
free_step :
    (m : Cmd Heap (Unit {0})) (t : List ℕ) (n : ℕ) (line : List ℕ) (rest : Cmd Kernel (Unit {0}))
    (k : Kernel) {h : Heap} {r : Run Kernel (Unit {0})}
    → m k.sched.heap ≡ ok tt h
    → Spells t n line
    → rest (with_tty (with_text 0 15 line k.tty) (with_heap h k)) ≡ r
    → (on_sched (on_heap m) >> (print (t ++ chars "%X\n") (n ∷ []) >> rest)) k ≡ r
free_step m t n line rest k {h} run spells more =
    bind-ok (on_sched (on_heap m)) (λ _. print (t ++ chars "%X\n") (n ∷ []) >> rest) k
      (on_heap-ok m k run)
      (bind-ok (print (t ++ chars "%X\n") (n ∷ [])) (λ _. rest) (with_heap h k)
        (hex_print t n line (with_heap h k) spells) more)

last_step :
    (pgd : ℕ) (t : List ℕ) (n : ℕ) (line : List ℕ) (k : Kernel) {h : Heap}
    → kfree pgd n k.sched.heap ≡ ok tt h
    → Spells t n line
    → (on_sched (on_heap (kfree pgd n)) >> print (t ++ chars "%X\n") (n ∷ [])) k
      ≡ ok tt (with_tty (with_text 0 15 line k.tty) (with_heap h k))
last_step pgd t n line k {h} run spells =
    bind-ok (on_sched (on_heap (kfree pgd n))) (λ _. print (t ++ chars "%X\n") (n ∷ [])) k
      (on_heap-ok (kfree pgd n) k run) (hex_print t n line (with_heap h k) spells)

-- What the test leaves: the lines on the screen, and a heap without blocks.
pub record IsTested (pgd : ℕ) (k t : Kernel) : Type 0 where
  pub heap : Heap
  pub holds : Holds pgd [] heap
  pub pages : 8 ≤ heap.machine.pmm.stack_top
  pub state : t ≡ with_tty (with_log test_log k.tty) (with_heap heap k)

-- `test_heap` on an empty heap at its start with 36 free pages returns. It prints its lines, with
-- the addresses 0xE0000010, 0xE0000052, 0xE0000256 and 0xE00015EE, and leaves the heap empty, in order
-- and with eight free pages at least; nothing else of the kernel changes.
pub test_heap-IsTested :
    (pgd : ℕ) (k : Kernel)
    → Holds pgd [] k.sched.heap
    → k.sched.heap.heap_max ≡ heap_start
    → 36 ≤ k.sched.heap.machine.pmm.stack_top
    → Returns (λ _ t. IsTested pgd k t) (test_heap pgd k)
unfolding test_heap chars format_of args_of text_of number fill prefix sign_of magnitude
    number_digits put_digits digit replicate
test_heap-IsTested pgd k h e n =
    let title = chars "Test kmalloc() && kfree() now ...\n\n" in
    let run : test_heap pgd k
        ≡ ok tt (
            with_tty (with_log test_log k.tty)
              (with_heap (free_fourth pgd k.sched.heap h e n).after k)) =
      bind-ok (print_color (color rc_black) (color rc_magenta) title []) _ k
        (print-ok title [] title k (color rc_black) (color rc_magenta)
          (printk-plain title k.tty refl (omega arith))).0
        (malloc_step (kmalloc pgd 50) (chars "kmalloc     50 bytes in 0x") 0xE0000010
          (chars "kmalloc     50 bytes in 0xE0000010\n") _ _ (first pgd k.sched.heap h e n).run
          (refl, omega arith, refl, refl, refl)
          (malloc_step (kmalloc pgd 500) (chars "kmalloc    500 bytes in 0x") 0xE0000052
            (chars "kmalloc    500 bytes in 0xE0000052\n") _ _ (second pgd k.sched.heap h e n).run
            (refl, omega arith, refl, refl, refl)
            (malloc_step (kmalloc pgd 5000) (chars "kmalloc   5000 bytes in 0x") 0xE0000256
              (chars "kmalloc   5000 bytes in 0xE0000256\n") _ _ (third pgd k.sched.heap h e n).run
              (refl, omega arith, refl, refl, refl)
              (malloc_step (kmalloc pgd 50000) (chars "kmalloc  50000 bytes in 0x") 0xE00015EE
                (chars "kmalloc  50000 bytes in 0xE00015EE\n") _ _
                (fourth pgd k.sched.heap h e n).run (refl, omega arith, refl, refl, refl)
                (free_step (kfree pgd 0xE0000010) (chars "free mem in 0x") 0xE0000010
                  (chars "free mem in 0xE0000010\n") _ _ (free_first pgd k.sched.heap h e n).run
                  (refl, omega arith, refl, refl, refl)
                  (free_step (kfree pgd 0xE0000052) (chars "free mem in 0x") 0xE0000052
                    (chars "free mem in 0xE0000052\n") _ _ (free_second pgd k.sched.heap h e n).run
                    (refl, omega arith, refl, refl, refl)
                    (free_step (kfree pgd 0xE0000256) (chars "free mem in 0x") 0xE0000256
                      (chars "free mem in 0xE0000256\n") _ _ (free_third pgd k.sched.heap h e n).run
                      (refl, omega arith, refl, refl, refl)
                      (last_step pgd (chars "free mem in 0x") 0xE00015EE
                        (chars "free mem in 0xE00015EE\n") _
                        (free_fourth pgd k.sched.heap h e n).run
                        (refl, omega arith, refl, refl, refl))))))))) in
    rw run (record {
      heap = (free_fourth pgd k.sched.heap h e n).after;
      holds = emptied pgd k.sched.heap h e n;
      pages = pages_left pgd k.sched.heap h e n;
      state = refl;
    })
