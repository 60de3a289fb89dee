-- ===== src/Task.antt =====
-- Kernel threads and the scheduler: src/kernel/task/task.c, src/kernel/sched/sched.c,
-- src/kernel/sched/switch_to.s and src/include/task.h. The descriptors of the tasks are records at
-- their addresses, and `words` are the words of the threads' stacks. The code of a thread and the
-- exit function `kthread_exit`, which never returns, are addresses.
pub mod Ring
pub mod Start
pub mod Rounds
mod Tests
use bit_simple_kernel.Prelude.{
  ℕ, zero, suc, ◌+◌, ◌*◌, ◌^◌, ◌==◌, not, u32, sub32, write, if◌then◌else◌, Run, ok, out_of_fuel,
  Cmd, and_then, ◌>>=◌, ◌>>◌, pure, assert, zoom, kmalloc_error, no_sched,
}
use bit_simple_kernel.Heap.{Heap, kmalloc}

pub data TaskState : Type 0 where
  uninit sleeping runnable zombie : TaskState

pub record Context : Type 0 where
  pub esp : ℕ
  pub ebp : ℕ
  pub ebx : ℕ
  pub esi : ℕ
  pub edi : ℕ
  pub eflags : ℕ

pub record TaskStruct : Type 0 where
  pub state : TaskState
  pub pid : ℕ
  pub stack : ℕ
  pub mm : ℕ
  pub context : Context
  pub next : ℕ

-- `cpu` are the registers that a switch saves and loads.
pub record Sched : Type 0 where
  pub heap : Heap
  pub tasks : ℕ → TaskStruct
  pub words : ℕ → ℕ
  pub cpu : Context
  pub current : ℕ
  pub running_proc_head : ℕ
  pub now_pid : ℕ

abbrev pub stack_size : ℕ
stack_size = 8192

-- More tasks than 32 bits of addresses hold, at 8 KB each.
abbrev pub task_fuel : ℕ
task_fuel = 2 ^ 19

-- A descriptor after `bzero`.
abbrev pub zero_task : TaskStruct
zero_task = record {
  state = uninit;
  pid = 0;
  stack = 0;
  mm = 0;
  context = record { esp = 0; ebp = 0; ebx = 0; esi = 0; edi = 0; eflags = 0 };
  next = 0;
}

abbrev pub update_task : ℕ → (TaskStruct → TaskStruct) → Sched → Sched
update_task p f s = record s { tasks = write s.tasks p (f (s.tasks p)) }

unfoldable pub init_sched : ℕ → Sched → Sched
init_sched kern_stack_top s =
    let first = sub32 kern_stack_top stack_size in
    let set = λ (t : TaskStruct). record t {
      state = runnable;
      pid = s.now_pid;
      stack = first;
      mm = 0;
      next = first;
    } in
    record (update_task first set s) {
      current = first;
      now_pid = s.now_pid + 1;
      running_proc_head = first;
    }

-- The registers are saved in the one descriptor and loaded from the other.
unfoldable pub switch_to : ℕ → ℕ → Sched → Sched
switch_to prev next s =
    let s₁ = update_task prev (λ t. record t { context = s.cpu }) s in
    record s₁ { cpu = (s₁.tasks next).context }

unfoldable pub change_task_to : ℕ → Sched → Sched
change_task_to next s =
    if s.current == next then s else switch_to s.current next (record s { current = next })

unfoldable pub schedule : Sched → Sched
schedule s = if s.current == 0 then s else change_task_to (s.tasks s.current).next s

-- The descriptor and the stack of a new thread, up to its place in the list.
unfoldable pub prepare : ℕ → ℕ → ℕ → ℕ → Sched → Sched
prepare kthread_exit fn arg new_task s =
    let stack_top = u32 (new_task + stack_size) in
    let start : Context = record zero_task.context {
      esp = sub32 stack_top (4 * 3);
      eflags = 0x200;
    } in
    let task : TaskStruct = record zero_task {
      state = runnable;
      stack = s.current;
      pid = s.now_pid;
      mm = 0;
      context = start;
      next = s.running_proc_head;
    } in
    let words₁ = write s.words (sub32 stack_top 4) arg in
    let words₂ = write words₁ (sub32 stack_top 8) kthread_exit in
    record s {
      tasks = write s.tasks new_task task;
      words = write words₂ (sub32 stack_top 12) fn;
      now_pid = s.now_pid + 1;
    }

-- `while (tail->next != running_proc_head) tail = tail->next`.
unfoldable pub find_tail : ℕ → ℕ → Cmd Sched ℕ
find_tail zero tail s = out_of_fuel
find_tail (suc fuel) tail s =
    let next = (s.tasks tail).next in
    let rest = find_tail fuel next s in if next == s.running_proc_head then ok tail s else rest

-- The end of `kernel_thread`: the insertion behind the tail.
unfoldable pub insert : ℕ → Cmd Sched ℕ
insert new_task s = and_then (assert (not (s.running_proc_head == 0)) no_sched s) λ _ s₁.
    and_then (find_tail task_fuel s₁.running_proc_head s₁) λ tail s₂.
      ok (s₂.tasks new_task).pid (update_task tail (λ t. record t { next = new_task }) s₂)

abbrev pub on_heap : {A : Type 0} → Cmd Heap A → Cmd Sched A
on_heap = zoom (λ s. s.heap) (λ h s. record s { heap = h })

unfoldable pub kernel_thread : ℕ → ℕ → ℕ → ℕ → Cmd Sched ℕ
kernel_thread pgd_kern kthread_exit fn arg s =
    and_then (on_heap (kmalloc pgd_kern stack_size) s) λ new_task s₁.
      and_then (assert (not (new_task == 0)) kmalloc_error s₁)
        λ _ s₂. insert new_task (prepare kthread_exit fn arg new_task s₂)
