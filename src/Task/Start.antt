-- ===== src/Task/Start.antt =====
-- A new thread of src/kernel/task/task.c: its place in the list and its first stack.
use bit_simple_kernel.Prelude.{
  ℕ, ◌+◌, ◌^◌, ◌<◌, ◌==◌, ◌≡◌, ◌≢◌, refl, sym, ◌∙◌, ap, arith, true, false, List, [], ◌∷◌, ◌++◌,
  length, All, All-append, All-map, write, write_self, write_ne, ok, Returns, zoom-ok,
}
use bit_simple_kernel.Heap.{Heap, kmalloc}
use bit_simple_kernel.Task.{
  runnable, TaskStruct, Sched, stack_size, task_fuel, update_task, prepare, insert, kernel_thread,
  on_heap,
}
use bit_simple_kernel.Task.Ring.{
  next_of, IsRing, last, find_tail-last, Linked-cong, Linked-append, All-last,
}

-- Task `p` can be switched to for the first time: `ret` then takes `fn` off its stack, and `fn`
-- finds its return address and its argument.
pub record IsStarted (kthread_exit fn arg pid p : ℕ) (s : Sched) : Type 0 where
  pub state : (s.tasks p).state ≡ runnable
  pub pid_is : (s.tasks p).pid ≡ pid
  pub esp : (s.tasks p).context.esp + 12 ≡ p + stack_size
  pub entry : s.words (s.tasks p).context.esp ≡ fn
  pub return : s.words ((s.tasks p).context.esp + 4) ≡ kthread_exit
  pub argument : s.words ((s.tasks p).context.esp + 8) ≡ arg

-- The task is prepared and stands behind the tail.
pub record IsInserted (kthread_exit fn arg p : ℕ) (h : Heap) (rest : List ℕ) (s : Sched) (pid : ℕ)
    (t : Sched) : Type 0 where
  pub heap : t.heap ≡ h
  pub pid_is : pid ≡ s.now_pid
  pub next_pid : t.now_pid ≡ s.now_pid + 1
  pub head : t.running_proc_head ≡ s.running_proc_head
  pub current : t.current ≡ s.current
  pub ring : IsRing t (rest ++ p ∷ [])
  pub started : IsStarted kthread_exit fn arg s.now_pid p t

same : (p : ℕ) → (p == p) ≡ true
same p = ground arith

prepared-IsStarted :
    (kthread_exit fn arg p : ℕ) (s : Sched)
    → p + stack_size < 2 ^ 32
    → IsStarted kthread_exit fn arg s.now_pid p (prepare kthread_exit fn arg p s)
unfolding prepare write
prepared-IsStarted kthread_exit fn arg p s h = record {
  state = rw (same p) refl;
  pid_is = rw (same p) refl;
  esp = rw (same p) (omega arith);
  entry = rw (same p) (ground arith);
  return = rw (same p) (ground arith);
  argument = rw (same p) (ground arith);
}

prepared-IsRing :
    (kthread_exit fn arg p : ℕ) (s : Sched) (rest : List ℕ)
    → All (λ t. t ≢ p) (s.running_proc_head ∷ rest)
    → IsRing s rest
    → IsRing (prepare kthread_exit fn arg p s) rest
unfolding prepare
prepared-IsRing kthread_exit fn arg p s rest new ring =
    let s₁ = prepare kthread_exit fn arg p s in
    record {
      linked =
          Linked-cong (next_of s) (next_of s₁) s.running_proc_head rest s.running_proc_head
            (All-map (λ t ne. ap (λ (k : TaskStruct). k.next) (sym (write_ne s.tasks p _ t ne)))
              (s.running_proc_head ∷ rest) new)
            ring.linked;
      others = ring.others;
    }

-- The state after the insertion.
abbrev inserted : ℕ → List ℕ → Sched → Sched
inserted p rest s = update_task (last s.running_proc_head rest) (λ t. record t { next = p }) s

insert-ok :
    (p : ℕ) (s : Sched) (rest : List ℕ)
    → s.running_proc_head ≢ 0
    → IsRing s rest
    → length rest < task_fuel
    → insert p s ≡ ok (s.tasks p).pid (inserted p rest s)
unfolding insert
insert-ok p s rest head_set ring few =
    let set : (s.running_proc_head == 0) ≡ false = ground arith in
    rw (set, find_tail-last task_fuel s.running_proc_head rest s few ring.linked ring.others) refl

inserted-IsRing :
    (p : ℕ) (s : Sched) (rest : List ℕ)
    → next_of s p ≡ s.running_proc_head
    → All (λ t. t ≢ p) (s.running_proc_head ∷ rest)
    → IsRing s rest
    → IsRing (inserted p rest s) (rest ++ p ∷ [])
inserted-IsRing p s rest to_head new ring =
    let tail = last s.running_proc_head rest in
    let old = All-last (λ t. t ≢ p) s.running_proc_head rest new in
    record {
      linked =
          Linked-append (next_of s) (next_of (inserted p rest s)) s.running_proc_head rest p
            s.running_proc_head
            (λ t _ ne. ap (λ (k : TaskStruct). k.next) (write_ne s.tasks tail _ t ne))
            (ap (λ (k : TaskStruct). k.next) (write_self s.tasks tail _))
            (ap (λ (k : TaskStruct). k.next) (write_ne s.tasks tail _ p (λ e. old (sym e)))
              ∙ to_head)
            new ring.others ring.linked;
      others =
          All-append (λ t. t ≢ s.running_proc_head) rest (p ∷ []) ring.others
            (λ e. new.0 (sym e), tt);
    }

inserted-IsStarted :
    (kthread_exit fn arg pid p : ℕ) (s : Sched) (rest : List ℕ)
    → last s.running_proc_head rest ≢ p
    → IsStarted kthread_exit fn arg pid p s
    → IsStarted kthread_exit fn arg pid p (inserted p rest s)
inserted-IsStarted kthread_exit fn arg pid p s rest ne h =
    let tail = last s.running_proc_head rest in
    let linked : TaskStruct = record (s.tasks tail) { next = p } in
    let unchanged = write_ne s.tasks tail linked p (λ e. ne (sym e)) in
    record {
      state = rw unchanged h.state;
      pid_is = rw unchanged h.pid_is;
      esp = rw unchanged h.esp;
      entry = rw unchanged h.entry;
      return = rw unchanged h.return;
      argument = rw unchanged h.argument;
    }

-- `kernel_thread` returns when the heap gives it memory for a descriptor that is none of the tasks'
-- and lies below the end of the address space: the result is the next pid, the new task stands at
-- the end of the circular list with the others in their order, is runnable, and has a stack from
-- which it starts with `fn` and its argument and returns to `kthread_exit`. The task that runs does
-- not change. The list is well-formed, not empty, and has fewer tasks than fit in the memory.
pub kernel_thread-IsInserted :
    (pgd kthread_exit fn arg : ℕ) (s : Sched) (rest : List ℕ) (p : ℕ) (h : Heap)
    → kmalloc pgd stack_size s.heap ≡ ok p h
    → p ≢ 0
    → p + stack_size < 2 ^ 32
    → s.running_proc_head ≢ 0
    → All (λ t. t ≢ p) (s.running_proc_head ∷ rest)
    → IsRing s rest
    → length rest < task_fuel
    → Returns (IsInserted kthread_exit fn arg p h rest s) (kernel_thread pgd kthread_exit fn arg s)
unfolding kernel_thread prepare
kernel_thread-IsInserted pgd kthread_exit fn arg s rest p h run not_null fits head_set new ring
      few =
    let s₁ : Sched = record s { heap = h } in
    let s₂ = prepare kthread_exit fn arg p s₁ in
    let got : on_heap (kmalloc pgd stack_size) s ≡ ok p s₁ =
      zoom-ok (λ t. t.heap) (λ g t. record t { heap = g }) (kmalloc pgd stack_size) s run in
    let set : (p == 0) ≡ false = ground arith in
    let ring₂ =
      prepared-IsRing kthread_exit fn arg p s₁ rest new
        (record { linked = ring.linked; others = ring.others }) in
    rw (got, set, insert-ok p s₂ rest head_set ring₂ few)
      (record {
        heap = refl;
        pid_is = ap (λ (k : TaskStruct). k.pid) (write_self s.tasks p _);
        next_pid = refl;
        head = refl;
        current = refl;
        ring =
            inserted-IsRing p s₂ rest (ap (λ (k : TaskStruct). k.next) (write_self s.tasks p _)) new
              ring₂;
        started =
            inserted-IsStarted kthread_exit fn arg s.now_pid p s₂ rest
              (All-last (λ t. t ≢ p) s.running_proc_head rest new)
              (prepared-IsStarted kthread_exit fn arg p s₁ fits);
      })
