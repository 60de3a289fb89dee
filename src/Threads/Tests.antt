-- ===== src/Threads/Tests.antt =====
-- The first steps of the two threads: the first thread is interrupted behind its printing.
use bit_simple_kernel.Prelude.{ℕ, suc, ◌≡◌, refl, []}
use bit_simple_kernel.Printk.Output.{Tty}
use bit_simple_kernel.Threads.{
  Threads, at_test, at_print, main_at, thread_at, by_main, by_thread, Reach, here, next, start,
}
use bit_simple_kernel.Threads.Turns.{letters, Excludes, Reach-letters, Reach-goes_on}

abbrev screen : Tty
screen = record {
  console = record { video_memory = λ _. 0; cursor_x = 0; cursor_y = 0; ports = [] };
  mem = λ _. 0;
}

abbrev first : Threads
first = record { flag = 0; main = at_print; other = at_test; tty = screen }

first-Reach : Reach (start screen) first
unfolding main_at thread_at
first-Reach = next (next here (by_main refl)) (by_thread refl)

Reach-letters_example : ((n : ℕ) × (screen ≡ letters n screen)) × Excludes first
Reach-letters_example = Reach-letters screen first first-Reach

Reach-goes_on_example :
    (n : ℕ) × (screen ≡ letters n screen)
    × (t : Threads) × (t.tty ≡ letters (suc n) screen)
    × Reach first t
Reach-goes_on_example = Reach-goes_on screen first first-Reach
