-- ===== src/Boot/MemoryMap.antt =====
-- `show_memory_map` of src/mm/pmm.c, and the other lines of the report about the memory.
use bit_simple_kernel.Prelude.{
  ℕ, ◌+◌, ◌/◌, ◌<◌, ◌≡◌, refl, true, List, [], ◌∷◌, ◌++◌, none, arith, chars, Run, ok, Cmd, ◌>>◌,
  All, u32,
}
use bit_simple_kernel.Pmm.{MmapEntry}
use bit_simple_kernel.Printk.Directive.{
  Directive, converted, upper_hex, decimal, format_of, args_of, text_of, IsDirective,
}
use bit_simple_kernel.Printk.Output.{Tty, with_text, buffer_size}
use bit_simple_kernel.Printk.Plain.{is_plain, plains, plains-All, Prints, printk-plain}
use bit_simple_kernel.Printk.Lines.{room, printk-room}
use bit_simple_kernel.Boot.Kernel.{
  Kernel, Image, kern_size, print, show_entries, show_memory_map, show_memory,
}
use bit_simple_kernel.Boot.Reports.{Line, white, with_log, with_tty, bind-ok, print-ok}

-- `%X` and `%08X`.
abbrev pub hex : ℕ → Directive
hex n = converted [] [] none (upper_hex n)

abbrev pub hex8 : ℕ → Directive
hex8 n = converted (b'0' ∷ []) (b'8' ∷ []) none (upper_hex n)

-- What is printed about an entry of the memory map, from each of its values on.
abbrev type_directives : MmapEntry → List Directive
type_directives e = hex e.kind ∷ (plains (chars "\n") ++ [])

abbrev length_directives : MmapEntry → List Directive
length_directives e =
    hex e.length_high ∷ hex8 e.length_low ∷ (plains (chars ", type = 0x") ++ type_directives e)

abbrev base_directives : MmapEntry → List Directive
base_directives e =
    hex e.base_addr_high
    ∷ hex8 e.base_addr_low
    ∷ (plains (chars ", length = 0x") ++ length_directives e)

abbrev pub entry_directives : MmapEntry → List Directive
entry_directives e = plains (chars "base_addr = 0x") ++ base_directives e

abbrev pub entries_log : List MmapEntry → List Line
entries_log [] = []
entries_log (e ∷ es) = white (text_of (entry_directives e)) ∷ entries_log es

abbrev pub map_log : List MmapEntry → List Line
map_log es = white (chars "Memory map: \n") ∷ entries_log es

hex8-IsDirective : (m : ℕ → ℕ) (n : ℕ) → IsDirective m (hex8 n)
hex8-IsDirective m n = ((refl, tt), (omega arith, (refl, tt), omega arith), tt, tt)

entry-IsDirective : (m : ℕ → ℕ) (e : MmapEntry) → All (IsDirective m) (entry_directives e)
unfolding chars
entry-IsDirective m e =
    let last = plains-All [] m (chars "\n") refl tt in
    let type =
      plains-All (type_directives e) m (chars ", type = 0x") refl ((tt, tt, tt, tt), last) in
    let size =
      plains-All (length_directives e) m (chars ", length = 0x") refl
        ((tt, tt, tt, tt), (hex8-IsDirective m e.length_low, type)) in
    plains-All (base_directives e) m (chars "base_addr = 0x") refl
      ((tt, tt, tt, tt), (hex8-IsDirective m e.base_addr_low, size))

show_entries-ok :
    (es : List MmapEntry) (k : Kernel)
    → show_entries es k ≡ ok tt (with_tty (with_log (entries_log es) k.tty) k)
unfolding show_entries chars format_of args_of
show_entries-ok [] k = refl
show_entries-ok (e ∷ es) k =
    bind-ok
      (print (chars "base_addr = 0x%X%08X, length = 0x%X%08X, type = 0x%X\n")
        (e.base_addr_high ∷ e.base_addr_low ∷ e.length_high ∷ e.length_low ∷ e.kind ∷ []))
      (λ _. show_entries es) k
      (print-ok (format_of (entry_directives e)) (args_of (entry_directives e))
        (text_of (entry_directives e)) k 0 15
        (printk-room (entry_directives e) k.tty (entry-IsDirective k.tty.mem e) (omega arith))).1
      (show_entries-ok es (with_tty (with_text 0 15 (text_of (entry_directives e)) k.tty) k))

-- `show_memory_map` returns, and prints its title and a line for each entry, in order: the address
-- and the length in base 16, with their low words in eight digits, and the type.
pub show_memory_map-log :
    (es : List MmapEntry) (k : Kernel)
    → show_memory_map es k ≡ ok tt (with_tty (with_log (map_log es) k.tty) k)
unfolding show_memory_map chars
show_memory_map-log es k =
    let title = chars "Memory map: \n" in
    bind-ok (print title []) (λ _. show_entries es) k
      (print-ok title [] title k 0 15 (printk-plain title k.tty refl (omega arith))).1
      (show_entries-ok es (with_tty (with_text 0 15 title k.tty) k))

-- A text, a conversion, and a text.
abbrev pub one_line : List ℕ → Directive → List ℕ → List Directive
one_line t d u = plains t ++ (d ∷ (plains u ++ []))

pub one_line-Prints :
    (t : List ℕ) (d : Directive) (u : List ℕ) (s : Tty)
    → is_plain t ≡ true
    → is_plain u ≡ true
    → IsDirective s.mem d
    → room (one_line t d u) < buffer_size
    → Prints (format_of (one_line t d u)) (args_of (one_line t d u)) s (text_of (one_line t d u))
one_line-Prints t d u s ht hu hd short =
    printk-room (one_line t d u) s
      (plains-All (d ∷ (plains u ++ [])) s.mem t ht (hd, plains-All [] s.mem u hu tt)) short

abbrev pub start_line : ℕ → List Directive
start_line n = one_line (chars "kernel in memory start: 0x") (hex8 n) (chars "\n")

abbrev pub end_line : ℕ → List Directive
end_line n = one_line (chars "kernel in memory end:   0x") (hex8 n) (chars "\n")

abbrev pub used_line : ℕ → List Directive
used_line n =
    one_line (chars "kernel in memory used:   ") (converted [] [] none (decimal n))
      (chars " KB\n\n")

-- The report about the memory.
abbrev pub memory_log : Image → List Line
memory_log i =
    white (text_of (start_line i.kern_start))
    ∷ white (text_of (end_line i.kern_end))
    ∷ white (text_of (used_line (u32 (kern_size i + 1023) / 1024)))
    ∷ map_log i.mmap

-- A call of `printk` for one conversion.
pub line_step :
    (t : List ℕ) (d : Directive) (u : List ℕ) (rest : Cmd Kernel (Unit {0})) (k : Kernel)
    {format args : List ℕ} {r : Run Kernel (Unit {0})}
    → is_plain t ≡ true
    → is_plain u ≡ true
    → IsDirective k.tty.mem d
    → room (one_line t d u) < buffer_size
    → format ≡ format_of (one_line t d u)
    → args ≡ args_of (one_line t d u)
    → rest (with_tty (with_text 0 15 (text_of (one_line t d u)) k.tty) k) ≡ r
    → (print format args >> rest) k ≡ r
line_step t d u rest k {format} {args} ht hu hd short f a more =
    bind-ok (print format args) (λ _. rest) k
      (print-ok format args (text_of (one_line t d u)) k 0 15
        (rw (f, a) (one_line-Prints t d u k.tty ht hu hd short))).1
      more

pub show_memory-ok :
    (i : Image) (k : Kernel) → show_memory i k ≡ ok tt (with_tty (with_log (memory_log i) k.tty) k)
unfolding show_memory chars format_of args_of
show_memory-ok i k =
    let used = u32 (kern_size i + 1023) / 1024 in
    let u₁ = with_text 0 15 (text_of (start_line i.kern_start)) k.tty in
    let u₂ = with_text 0 15 (text_of (end_line i.kern_end)) u₁ in
    let u₃ = with_text 0 15 (text_of (used_line used)) u₂ in
    let report = show_memory_map i.mmap in
    let say_used = print (chars "kernel in memory used:   %d KB\n\n") (used ∷ []) in
    let say_end = print (chars "kernel in memory end:   0x%08X\n") (i.kern_end ∷ []) in
    line_step (chars "kernel in memory start: 0x") (hex8 i.kern_start) (chars "\n")
      (say_end >> (say_used >> report)) k refl refl (hex8-IsDirective k.tty.mem i.kern_start)
      (omega arith) refl refl
      (line_step (chars "kernel in memory end:   0x") (hex8 i.kern_end) (chars "\n")
        (say_used >> report) (with_tty u₁ k) refl refl (hex8-IsDirective u₁.mem i.kern_end)
        (omega arith) refl refl
        (line_step (chars "kernel in memory used:   ") (converted [] [] none (decimal used))
          (chars " KB\n\n") report (with_tty u₂ k) refl refl (tt, tt, tt, tt) (omega arith) refl
          refl (show_memory_map-log i.mmap (with_tty u₃ k))))
