-- ===== src/Task/Rounds.antt =====
-- The order in which src/kernel/sched/sched.c runs the tasks, and their registers.
use mathlib.Core.Option.{some-injective, none-ne-some}
use bit_simple_kernel.Prelude.{
  ◌+◌, true, write_self, refl, sub32, Bool-cases, inl, inr, ℕ, zero, suc, ◌==◌, ◌≡◌, ◌≢◌, sym, ◌∙◌,
  ap, arith, List, [], ◌∷◌, length, get_elem?, some, All, All-map, write, if◌then◌else◌,
}
use bit_simple_kernel.Task.{
  Context, Sched, switch_to, change_task_to, schedule, TaskStruct, init_sched, stack_size, runnable,
}
use bit_simple_kernel.Task.Ring.{next_of, IsRing, Linked, Linked-cong}

-- The registers of task `t`: those of the processor while it runs, else the saved ones.
abbrev pub registers_of : Sched → ℕ → Context
registers_of s t = if t == s.current then s.cpu else (s.tasks t).context

-- `n` ticks of the timer.
pub ticks : ℕ → Sched → Sched
ticks zero s = s
ticks (suc n) s = ticks n (schedule s)

next-schedule : (s : Sched) (t : ℕ) → next_of (schedule s) t ≡ next_of s t
unfolding schedule change_task_to switch_to write
next-schedule s t = ground arith

pub current-schedule : (s : Sched) → s.current ≢ 0 → (schedule s).current ≡ next_of s s.current
unfolding schedule change_task_to switch_to write
current-schedule s h = ground arith

-- `schedule` loses no registers: for every task, the registers it has, in the processor or saved,
-- are the same before and after.
pub registers_of-schedule : (s : Sched) (t : ℕ) → registers_of (schedule s) t ≡ registers_of s t
unfolding schedule change_task_to switch_to write
registers_of-schedule s t = ground arith

-- One tick moves along a link, and the rest of the way is still there.
module _ (s : Sched) (a b : ℕ) (bs : List ℕ) (z : ℕ) (runs : s.current ≡ a)
    (set : All (λ t. t ≢ 0) (a ∷ b ∷ bs)) (l : Linked (next_of s) a (b ∷ bs) z) where
  tick-current : (schedule s).current ≡ b
  tick-current = current-schedule s (rw runs set.0) ∙ ap (next_of s) runs ∙ l.0

  tick-Linked : Linked (next_of (schedule s)) b bs z
  tick-Linked =
      Linked-cong (next_of s) (next_of (schedule s)) b bs z
        (All-map (λ t _. sym (next-schedule s t)) (b ∷ bs) set.1) l.1

ticks-visit :
    (s : Sched) (a : ℕ) (bs : List ℕ) (z i t : ℕ)
    → s.current ≡ a
    → All (λ k. k ≢ 0) (a ∷ bs)
    → Linked (next_of s) a bs z
    → get_elem? (a ∷ bs) i ≡ some t
    → (ticks i s).current ≡ t
unfolding ticks
ticks-visit s a bs z zero t runs set l e = runs ∙ some-injective a t e
ticks-visit s a [] z (suc i) t runs set l e = absurd (none-ne-some t e)
ticks-visit s a (b ∷ bs) z (suc i) t runs set l e =
    ticks-visit (schedule s) b bs z i t (tick-current s a b bs z runs set l) set.1
      (tick-Linked s a b bs z runs set l) e

ticks-around :
    (s : Sched) (a : ℕ) (bs : List ℕ) (z : ℕ)
    → s.current ≡ a
    → All (λ k. k ≢ 0) (a ∷ bs)
    → Linked (next_of s) a bs z
    → (ticks (suc (length bs)) s).current ≡ z
unfolding ticks
ticks-around s a [] z runs set l = current-schedule s (rw runs set.0) ∙ ap (next_of s) runs ∙ l
ticks-around s a (b ∷ bs) z runs set l =
    ticks-around (schedule s) b bs z (tick-current s a b bs z runs set l) set.1
      (tick-Linked s a b bs z runs set l)

-- The scheduler is round robin: from the head of a well-formed list, `schedule` makes the tasks
-- current one after the other in the order of the list, and after the last one again the head. The
-- addresses of the tasks are not null.
pub ticks-IsRing :
    (s : Sched) (rest : List ℕ)
    → s.current ≡ s.running_proc_head
    → All (λ t. t ≢ 0) (s.running_proc_head ∷ rest)
    → IsRing s rest
    → ((i t : ℕ) → get_elem? (s.running_proc_head ∷ rest) i ≡ some t → (ticks i s).current ≡ t)
      × ((ticks (suc (length rest)) s).current ≡ s.running_proc_head)
ticks-IsRing s rest runs set ring = (
  λ i t e. ticks-visit s s.running_proc_head rest s.running_proc_head i t runs set ring.linked e,
  ticks-around s s.running_proc_head rest s.running_proc_head runs set ring.linked,
)

-- The list has one task, `first`, which runs and is runnable, and the scheduler stays with it.
pub record IsAlone (first pid : ℕ) (t : Sched) : Type 0 where
  pub ring : IsRing t []
  pub head : t.running_proc_head ≡ first
  pub current : t.current ≡ first
  pub state : (t.tasks first).state ≡ runnable
  pub pid_is : (t.tasks first).pid ≡ pid
  pub next_pid : t.now_pid ≡ pid + 1
  pub stays : schedule t ≡ t

-- After `init_sched` the running flow of control is a runnable task with the next pid, whose
-- descriptor lies at the bottom of the kernel's stack. It is the only one in a well-formed list, and
-- `schedule` changes nothing.
pub init_sched-IsAlone :
    (kern_stack_top : ℕ) (s : Sched)
    → IsAlone (sub32 kern_stack_top stack_size) s.now_pid (init_sched kern_stack_top s)
unfolding init_sched schedule change_task_to
init_sched-IsAlone kern_stack_top s =
    let first = sub32 kern_stack_top stack_size in
    let t = init_sched kern_stack_top s in
    let task : TaskStruct = record (s.tasks first) {
      state = runnable;
      pid = s.now_pid;
      stack = first;
      mm = 0;
      next = first;
    } in
    let here : t.tasks first ≡ task = write_self s.tasks first task in
    let same : (first == first) ≡ true = ground arith in
    record {
      ring = record { linked = ap (λ (k : TaskStruct). k.next) here; others = tt };
      head = refl;
      current = refl;
      state = ap (λ (k : TaskStruct). k.state) here;
      pid_is = ap (λ (k : TaskStruct). k.pid) here;
      next_pid = refl;
      stays = elim (Bool-cases (first == 0)) [
        | inl null ↦ rw null refl
        | inr set ↦ rw (set, here, same) refl
      ];
    }
