-- ===== src/Threads/Turns.antt =====
-- The threads of src/init/entry.c take turns.
use bit_simple_kernel.Prelude.{
  ℕ, zero, suc, ◌%◌, ◌==◌, ◌≡◌, ◌∙◌, sym, ap, refl, arith, if◌then◌else◌, [], chars, ok, Run,
  zoom-ok, ◌⊎◌, inl, inr,
}
use bit_simple_kernel.Console.{rc_black, rc_green, rc_red, color}
use bit_simple_kernel.Printk.Output.{Tty, printk_color, with_text}
use bit_simple_kernel.Printk.Plain.{printk-plain}
use bit_simple_kernel.Threads.{
  at_test, at_print, at_set, Threads, on_tty, main_at, thread_at, main_step, thread_step, by_main,
  by_thread, Reach, here, next, start,
}

-- The screen after `n` letters: A and B in turn, A first.
abbrev pub letters : ℕ → Tty → Tty
letters zero u = u
letters (suc n) u =
    if n % 2 == 0
    then with_text (color rc_black) (color rc_red) (chars "A") (letters n u)
    else with_text (color rc_black) (color rc_green) (chars "B") (letters n u)

-- Where the threads can be when `n` letters are printed: the one whose turn it is may be at any
-- place, and the other one is at its test.
pub data IsTurn (u : Tty) (n : ℕ) (s : Threads) : Type 0 where
  main_turn :
      n % 2 ≡ 0
      → s ≡ record { flag = 0; main = at_test; other = at_test; tty = letters n u }
      → IsTurn u n s
  main_in :
      n % 2 ≡ 0
      → s ≡ record { flag = 0; main = at_print; other = at_test; tty = letters n u }
      → IsTurn u n s
  main_out :
      n % 2 ≡ 1
      → s ≡ record { flag = 0; main = at_set; other = at_test; tty = letters n u }
      → IsTurn u n s
  thread_turn :
      n % 2 ≡ 1
      → s ≡ record { flag = 1; main = at_test; other = at_test; tty = letters n u }
      → IsTurn u n s
  thread_in :
      n % 2 ≡ 1
      → s ≡ record { flag = 1; main = at_test; other = at_print; tty = letters n u }
      → IsTurn u n s
  thread_out :
      n % 2 ≡ 0
      → s ≡ record { flag = 1; main = at_test; other = at_set; tty = letters n u }
      → IsTurn u n s

-- What comes of a step.
abbrev After : Tty → ℕ → Run Threads (Unit {0}) → Type 0
After u n r = (t : Threads) × (r ≡ ok tt t) × (IsTurn u n t ⊎ IsTurn u (suc n) t)

letter :
    (back fore : ℕ) (s : Threads)
    → (on_tty (printk_color back fore (chars "A") []) s
        ≡ ok tt (record s { tty = with_text back fore (chars "A") s.tty }))
      × (on_tty (printk_color back fore (chars "B") []) s
          ≡ ok tt (record s { tty = with_text back fore (chars "B") s.tty }))
unfolding chars
letter back fore s =
    let get : Threads → Tty = λ k. k.tty in
    let put : Tty → Threads → Threads = λ v k. record k { tty = v } in
    (
      zoom-ok get put (printk_color back fore (chars "A") []) s
          (printk-plain (chars "A") s.tty refl (omega arith) back fore).0,
      zoom-ok get put (printk_color back fore (chars "B") []) s
          (printk-plain (chars "B") s.tty refl (omega arith) back fore).0,
    )

even-letters :
    (n : ℕ) (u : Tty)
    → n % 2 ≡ 0
    → letters (suc n) u ≡ with_text (color rc_black) (color rc_red) (chars "A") (letters n u)
even-letters n u e = rw e refl

odd-letters :
    (n : ℕ) (u : Tty)
    → n % 2 ≡ 1
    → letters (suc n) u ≡ with_text (color rc_black) (color rc_green) (chars "B") (letters n u)
odd-letters n u e = rw e refl

module _ (u : Tty) (n : ℕ) (s : Threads) where
  main-After : IsTurn u n s → After u n (main_step s)
  unfolding main_at
  main-After (main_turn e q) = rw q (_, refl, inl (main_in e refl))
  main-After (main_in e q) =
      rw (q, (letter (color rc_black) (color rc_red) _).0)
        (
          _,
          refl,
          inr (
              main_out (omega (arith, e)) (
                ap (λ (v : Tty). record { flag = 0; main = at_set; other = at_test; tty = v })
                  (sym (even-letters n u e)))),
        )
  main-After (main_out e q) = rw q (_, refl, inl (thread_turn e refl))
  main-After (thread_turn e q) = rw q (_, refl, inl (thread_turn e refl))
  main-After (thread_in e q) = rw q (_, refl, inl (thread_in e refl))
  main-After (thread_out e q) = rw q (_, refl, inl (thread_out e refl))

  thread-After : IsTurn u n s → After u n (thread_step s)
  unfolding thread_at
  thread-After (main_turn e q) = rw q (_, refl, inl (main_turn e refl))
  thread-After (main_in e q) = rw q (_, refl, inl (main_in e refl))
  thread-After (main_out e q) = rw q (_, refl, inl (main_out e refl))
  thread-After (thread_turn e q) = rw q (_, refl, inl (thread_in e refl))
  thread-After (thread_in e q) =
      rw (q, (letter (color rc_black) (color rc_green) _).1)
        (
          _,
          refl,
          inr (
              thread_out (omega (arith, e)) (
                ap (λ (v : Tty). record { flag = 1; main = at_test; other = at_set; tty = v })
                  (sym (odd-letters n u e)))),
        )
  thread-After (thread_out e q) = rw q (_, refl, inl (main_turn e refl))

-- Both threads are never behind their test at once.
abbrev pub Excludes : Threads → Type 0
Excludes s = (s.main ≡ at_test) ⊎ (s.other ≡ at_test)

same_state : (t v : Threads) → ok tt t ≡ ok tt v → v ≡ t
same_state t v e = cc

same_or_more :
    (u : Tty) (n : ℕ) (t : Threads) (r : Run Threads (Unit {0}))
    → After u n r
    → r ≡ ok tt t
    → IsTurn u n t ⊎ IsTurn u (suc n) t
same_or_more u n t r a e = rw (same_state a.0 t (sym a.1 ∙ e)) a.2

Reach-IsTurn : (u : Tty) {s : Threads} → Reach (start u) s → (n : ℕ) × IsTurn u n s
Reach-IsTurn u here = (0, main_turn refl refl)
Reach-IsTurn u (next {t} r st) =
    let before = Reach-IsTurn u r in
    elim st [
      | by_main e ↦
          counted u before.0 (same_or_more u before.0 _ _ (main-After u before.0 t before.1) e)
      | by_thread e ↦
          counted u before.0 (same_or_more u before.0 _ _ (thread-After u before.0 t before.1) e)
    ]
  where
    counted :
        (u : Tty) (n : ℕ) {v : Threads} → IsTurn u n v ⊎ IsTurn u (suc n) v → (k : ℕ) × IsTurn u k v
    counted u n (inl h) = (n, h)
    counted u n (inr h) = (suc n, h)

turn-Excludes : (u : Tty) (n : ℕ) (s : Threads) → IsTurn u n s → (s.tty ≡ letters n u) × Excludes s
turn-Excludes u n s (main_turn e q) = rw q (refl, inr refl)
turn-Excludes u n s (main_in e q) = rw q (refl, inr refl)
turn-Excludes u n s (main_out e q) = rw q (refl, inr refl)
turn-Excludes u n s (thread_turn e q) = rw q (refl, inl refl)
turn-Excludes u n s (thread_in e q) = rw q (refl, inl refl)
turn-Excludes u n s (thread_out e q) = rw q (refl, inl refl)

-- However the steps of the two threads are interleaved, from the state in which `kern_init` enables
-- interrupts: the screen shows the letters A and B in turn, A first, in their colours, and never are
-- both threads behind their test.
pub Reach-letters :
    (u : Tty) (s : Threads) → Reach (start u) s → ((n : ℕ) × (s.tty ≡ letters n u)) × Excludes s
Reach-letters u s r =
    let turn = Reach-IsTurn u r in
    let shown = turn-Excludes u turn.0 s turn.1 in ((turn.0, shown.0), shown.1)

-- How the next letter comes, from each of the places.
abbrev More : Tty → ℕ → Threads → Type 0
More u n a = (t : Threads) × (t.tty ≡ letters (suc n) u) × Reach a t

module _ (u : Tty) (n : ℕ) (a : Threads) where
  from_main_in :
      n % 2 ≡ 0
      → Reach a (record { flag = 0; main = at_print; other = at_test; tty = letters n u })
      → More u n a
  unfolding main_at
  from_main_in e r = (
    record { flag = 0; main = at_set; other = at_test; tty = letters (suc n) u },
    refl,
    next r (
        by_main (
          rw (letter (color rc_black) (color rc_red) _).0 (
            ap (λ (v : Tty). ok tt (record { flag = 0; main = at_set; other = at_test; tty = v }))
              (sym (even-letters n u e))))),
  )

  from_main_turn :
      n % 2 ≡ 0
      → Reach a (record { flag = 0; main = at_test; other = at_test; tty = letters n u })
      → More u n a
  unfolding main_at
  from_main_turn e r = from_main_in e (next r (by_main refl))

  from_thread_in :
      n % 2 ≡ 1
      → Reach a (record { flag = 1; main = at_test; other = at_print; tty = letters n u })
      → More u n a
  unfolding thread_at
  from_thread_in e r = (
    record { flag = 1; main = at_test; other = at_set; tty = letters (suc n) u },
    refl,
    next r (
        by_thread (
          rw (letter (color rc_black) (color rc_green) _).1 (
            ap (λ (v : Tty). ok tt (record { flag = 1; main = at_test; other = at_set; tty = v }))
              (sym (odd-letters n u e))))),
  )

  from_thread_turn :
      n % 2 ≡ 1
      → Reach a (record { flag = 1; main = at_test; other = at_test; tty = letters n u })
      → More u n a
  unfolding thread_at
  from_thread_turn e r = from_thread_in e (next r (by_thread refl))

  from-IsTurn : (s : Threads) → IsTurn u n s → Reach a s → More u n a
  unfolding main_at thread_at
  from-IsTurn s (main_turn e q) r = from_main_turn e (rw (← q) r)
  from-IsTurn s (main_in e q) r = from_main_in e (rw (← q) r)
  from-IsTurn s (main_out e q) r = from_thread_turn e (next r (by_main (rw q refl)))
  from-IsTurn s (thread_turn e q) r = from_thread_turn e (rw (← q) r)
  from-IsTurn s (thread_in e q) r = from_thread_in e (rw (← q) r)
  from-IsTurn s (thread_out e q) r = from_main_turn e (next r (by_thread (rw q refl)))

-- The threads never block each other: whatever steps they have taken, they can go on to the next
-- letter.
pub Reach-goes_on :
    (u : Tty) (s : Threads)
    → Reach (start u) s
    → (n : ℕ) × (s.tty ≡ letters n u) × (t : Threads) × (t.tty ≡ letters (suc n) u) × Reach s t
Reach-goes_on u s r =
    let turn = Reach-IsTurn u r in
    let more = from-IsTurn u turn.0 s s turn.1 here in
    (turn.0, (turn-Excludes u turn.0 s turn.1).0, more.0, more.1, more.2)
