-- ===== src/Printk/Output.antt =====
-- `printk` and `printk_color` of src/kernel/debug/printk.c: a text is formatted in a buffer and
-- written to the screen.
use bit_simple_kernel.Prelude.{
  ℕ, ◌==◌, ◌≡◌, refl, ltb, if◌then◌else◌, List, [], ◌∷◌, ◌++◌, length, All, Run, ok, panic, fault,
  out_of_fuel, Cmd,
}
use bit_simple_kernel.Console.{Console, console_write, console_write_color}
use bit_simple_kernel.Printk.{Printer, vsprintf}
use bit_simple_kernel.Printk.Directive.{Directive, format_of, args_of, text_of, IsDirective}
use bit_simple_kernel.Printk.Render.{printer, vsprintf-text_of}

-- The screen, and the memory that arguments point into.
pub record Tty : Type 0 where
  pub console : Console
  pub mem : ℕ → ℕ

-- The size of `buff`.
abbrev pub buffer_size : ℕ
buffer_size = 1024

-- The string in the buffer, which a zero character ends.
abbrev pub until_zero : List ℕ → List ℕ
until_zero [] = []
until_zero (c ∷ cs) = if c == 0 then [] else c ∷ until_zero cs

-- What is done with the buffer. The text and its terminating zero have to fit in; a longer text
-- overruns the buffer, which counts as a fault.
unfoldable pub deliver : (List ℕ → Console → Console) → Tty → Run Printer ℕ → Run Tty (Unit {0})
deliver show s (ok i p) =
    if ltb i buffer_size
    then ok tt (record { console = show (until_zero p.out) s.console; mem = p.mem })
    else fault
deliver show s (panic e) = panic e
deliver show s fault = fault
deliver show s out_of_fuel = out_of_fuel

unfoldable pub printk : List ℕ → List ℕ → Cmd Tty (Unit {0})
printk format args s = deliver console_write s (vsprintf format (printer [] args s.mem))

unfoldable pub printk_color : ℕ → ℕ → List ℕ → List ℕ → Cmd Tty (Unit {0})
printk_color back fore format args s =
    deliver (λ text. console_write_color text back fore) s (vsprintf format (printer [] args s.mem))

-- The screen with a text that is written in two colours.
abbrev pub with_text : ℕ → ℕ → List ℕ → Tty → Tty
with_text back fore text s = record s {
  console = console_write_color (until_zero text) back fore s.console;
}

-- The screen with some lines more.
abbrev pub with_lines : ℕ → ℕ → List (List ℕ) → Tty → Tty
with_lines back fore [] s = s
with_lines back fore (l ∷ ls) s = with_lines back fore ls (with_text back fore l s)

pub with_lines-append :
    (back fore : ℕ) (ls ks : List (List ℕ)) (s : Tty)
    → with_lines back fore (ls ++ ks) s ≡ with_lines back fore ks (with_lines back fore ls s)
with_lines-append back fore [] ks s = refl
with_lines-append back fore (l ∷ ls) ks s =
    with_lines-append back fore ls ks (with_text back fore l s)

console_write_lem :
    (text : List ℕ) (c : Console) → console_write text c ≡ console_write_color text 0 15 c
unfolding console_write console_write_color
console_write_lem [] c = refl
console_write_lem (ch ∷ text) c = console_write_lem text _

-- `printk_color` on a written list of directives, with their arguments in front of any others,
-- returns and leaves on the screen what writing the text of the directives in these colours leaves,
-- up to the first zero character in it, if the text is shorter than the buffer; a longer text
-- overruns the buffer. `printk` does the same in white on black. The texts among the arguments stand
-- in memory, a width does not start with a zero, and widths and precisions are below 2^31.
pub printk-text_of :
    (ds : List Directive) (rest : List ℕ) (back fore : ℕ) (s : Tty)
    → All (IsDirective s.mem) ds
    → (printk_color back fore (format_of ds) (args_of ds ++ rest) s ≡ (
        if ltb (length (text_of ds)) buffer_size
        then ok tt (with_text back fore (text_of ds) s)
        else fault))
      × (printk (format_of ds) (args_of ds ++ rest) s ≡ (
          if ltb (length (text_of ds)) buffer_size
          then ok tt (with_text 0 15 (text_of ds) s)
          else fault))
unfolding printk printk_color deliver
printk-text_of ds rest back fore s all =
    rw (vsprintf-text_of ds rest s.mem all, console_write_lem (until_zero (text_of ds)) s.console)
      (refl, refl)
