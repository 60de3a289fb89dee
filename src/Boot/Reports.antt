-- ===== src/Boot/Reports.antt =====
-- What `test_heap` of src/mm/heap.c and `show_memory_map` of src/mm/pmm.c print.
use bit_simple_kernel.Prelude.{
  ℕ, ◌<◌, ◌≡◌, refl, true, List, [], ◌∷◌, ◌++◌, none, Run, ok, Cmd, ◌>>=◌, zoom-ok,
}
use bit_simple_kernel.Heap.{Heap}
use bit_simple_kernel.Task.{Sched, on_heap}
use bit_simple_kernel.Printk.Directive.{
  Directive, converted, upper_hex, format_of, args_of, text_of,
}
use bit_simple_kernel.Printk.Output.{Tty, printk, printk_color, with_text, buffer_size}
use bit_simple_kernel.Printk.Plain.{is_plain, plains, plains-All, Prints}
use bit_simple_kernel.Printk.Lines.{room, printk-room}
use bit_simple_kernel.Boot.Kernel.{Kernel, on_sched, print, print_color}

-- A text in its colours.
pub record Line : Type 0 where
  pub back : ℕ
  pub fore : ℕ
  pub text : List ℕ

abbrev pub white : List ℕ → Line
white t = record { back = 0; fore = 15; text = t }

-- The screen with lines that are written one after the other.
abbrev pub with_log : List Line → Tty → Tty
with_log [] u = u
with_log (l ∷ ls) u = with_log ls (with_text l.back l.fore l.text u)

pub with_log-append :
    (ls ks : List Line) (u : Tty) → with_log (ls ++ ks) u ≡ with_log ks (with_log ls u)
with_log-append [] ks u = refl
with_log-append (l ∷ ls) ks u = with_log-append ls ks (with_text l.back l.fore l.text u)

-- `k` with another screen and another heap.
abbrev pub with_tty : Tty → Kernel → Kernel
with_tty u k = record k { tty = u }

abbrev pub with_heap : Heap → Kernel → Kernel
with_heap h k = record k { sched = record k.sched { heap = h } }

pub bind-ok :
    {A B : Type 0} (m : Cmd Kernel A) (k : A → Cmd Kernel B) (s : Kernel) {a : A} {t : Kernel}
    {r : Run Kernel B}
    → m s ≡ ok a t
    → k a t ≡ r
    → (m >>= k) s ≡ r
bind-ok m k s e f = rw e f

pub print-ok :
    (format args line : List ℕ) (k : Kernel) (back fore : ℕ)
    → Prints format args k.tty line
    → (print_color back fore format args k ≡ ok tt (with_tty (with_text back fore line k.tty) k))
      × (print format args k ≡ ok tt (with_tty (with_text 0 15 line k.tty) k))
print-ok format args line k back fore h =
    let put : Tty → Kernel → Kernel = with_tty in
    (
      zoom-ok (λ (q : Kernel). q.tty) put (printk_color back fore format args) k (h back fore).0,
      zoom-ok (λ (q : Kernel). q.tty) put (printk format args) k (h back fore).1,
    )

pub on_heap-ok :
    {A : Type 0} (m : Cmd Heap A) (k : Kernel) {a : A} {h : Heap}
    → m k.sched.heap ≡ ok a h
    → on_sched (on_heap m) k ≡ ok a (with_heap h k)
on_heap-ok m k e =
    zoom-ok (λ (q : Kernel). q.sched) (λ s q. record q { sched = s }) (on_heap m) k
      (zoom-ok (λ (s : Sched). s.heap) (λ g s. record s { heap = g }) m k.sched e)

-- A text, a number in base 16, and a text.
abbrev pub hex_line : List ℕ → ℕ → List ℕ → List Directive
hex_line t n u = plains t ++ (converted [] [] none (upper_hex n) ∷ (plains u ++ []))

pub hex_line-Prints :
    (t : List ℕ) (n : ℕ) (u : List ℕ) (s : Tty)
    → is_plain t ≡ true
    → is_plain u ≡ true
    → room (hex_line t n u) < buffer_size
    → Prints (format_of (hex_line t n u)) (args_of (hex_line t n u)) s (text_of (hex_line t n u))
hex_line-Prints t n u s ht hu short =
    let ds = converted [] [] none (upper_hex n) ∷ (plains u ++ []) in
    printk-room (hex_line t n u) s
      (plains-All ds s.mem t ht ((tt, tt, tt, tt), plains-All [] s.mem u hu tt)) short
