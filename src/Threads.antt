-- ===== src/Threads.antt =====
-- The two threads of src/init/entry.c: the loop at the end of `kern_init`, which is the first thread,
-- and the function `thread`. Each of them tests `flag`, prints a letter when it is its turn, and sets
-- `flag` for the other. They may be interrupted between any two of these steps.
pub mod Turns
mod Tests
use bit_simple_kernel.Prelude.{ℕ, ◌==◌, ◌≡◌, if◌then◌else◌, [], ◌∷◌, chars, ok, Cmd, and_then, zoom}
use bit_simple_kernel.Console.{rc_black, rc_green, rc_red, color}
use bit_simple_kernel.Printk.Output.{Tty, printk, printk_color}

-- Where a thread is in its loop: at the test, behind it, and behind the printing.
pub data Place : Type 0 where
  at_test at_print at_set : Place

-- `flag`, the places of the two threads, and the screen.
pub record Threads : Type 0 where
  pub flag : ℕ
  pub main : Place
  pub other : Place
  pub tty : Tty

abbrev pub on_tty : Cmd Tty (Unit {0}) → Cmd Threads (Unit {0})
on_tty = zoom (λ s. s.tty) (λ u s. record s { tty = u })

-- A step of `while(1) { if(flag == 0) { printk_color(…, "A"); flag = 1; } }`.
unfoldable pub main_at : Place → Cmd Threads (Unit {0})
main_at at_test s = ok tt (if s.flag == 0 then record s { main = at_print } else s)
main_at at_print s =
    and_then (on_tty (printk_color (color rc_black) (color rc_red) (chars "A") []) s)
      λ _ t. ok tt (record t { main = at_set })
main_at at_set s = ok tt (record s { flag = 1; main = at_test })

-- A step of the loop of `thread`.
unfoldable pub thread_at : Place → Cmd Threads (Unit {0})
thread_at at_test s = ok tt (if s.flag == 1 then record s { other = at_print } else s)
thread_at at_print s =
    and_then (on_tty (printk_color (color rc_black) (color rc_green) (chars "B") []) s)
      λ _ t. ok tt (record t { other = at_set })
thread_at at_set s = ok tt (record s { flag = 0; other = at_test })

abbrev pub main_step : Cmd Threads (Unit {0})
main_step s = main_at s.main s

abbrev pub thread_step : Cmd Threads (Unit {0})
thread_step s = thread_at s.other s

-- The scheduler lets one of the threads take a step.
pub data Step (s t : Threads) : Type 0 where
  by_main : main_step s ≡ ok tt t → Step s t
  by_thread : thread_step s ≡ ok tt t → Step s t

-- What `n` steps may lead to.
pub data Reach (s : Threads) : Threads → Type 0 where
  here : Reach s s
  next : {t u : Threads} → Reach s t → Step t u → Reach s u

-- `kthread_exit` of src/kernel/task/task.c up to its endless loop: a thread whose function returns
-- ends up here. The value is what the function leaves in `eax`.
unfoldable pub kthread_exit : ℕ → Cmd Tty (Unit {0})
kthread_exit val = printk (chars "Thread exited with value %d\n") (val ∷ [])

-- The state in which `kern_init` enables interrupts.
abbrev pub start : Tty → Threads
start u = record { flag = 0; main = at_test; other = at_test; tty = u }
