-- ===== src/Task/Tests.antt =====
-- Two tasks in turn, and a third one that is created, for src/kernel/task/task.c and
-- src/kernel/sched/sched.c.
use bit_simple_kernel.Prelude.{
  ℕ, ◌+◌, ◌*◌, ◌==◌, ◌≡◌, refl, arith, [], ◌∷◌, get_elem?, some, false, if◌then◌else◌, Returns, Run,
  ok, write,
}
use bit_simple_kernel.Heap.{
  Heap, heap_start, kmalloc, use_found, find_chunk, take_chunk, split_chunk, load, store, update,
}
use bit_simple_kernel.Task.{runnable, Sched, zero_task, stack_size, kernel_thread, schedule}
use bit_simple_kernel.Task.Ring.{IsRing}
use bit_simple_kernel.Task.Start.{IsInserted, kernel_thread-IsInserted}
use bit_simple_kernel.Task.Rounds.{ticks, ticks-IsRing, registers_of, registers_of-schedule}

-- A heap with one free chunk of 0x3000 bytes.
abbrev heap : Heap
heap = record {
  machine = record {
    pmm = record { stack = λ k. k * 0x1000; stack_top = 40; phy_page_count = 40 };
    mem = λ _. 0;
  };
  headers = λ _. record { prev = 0; next = 0; allocated = false; length = 0x3000 };
  heap_max = heap_start + 0x3000;
  heap_first = heap_start;
}

abbrev two_tasks : Sched
two_tasks = record {
  heap = heap;
  tasks = λ a. record zero_task {
    state = runnable;
    next = if a == 0xC0010000 then 0xC0020000 else 0xC0010000;
  };
  words = λ _. 0;
  cpu = zero_task.context;
  current = 0xC0010000;
  running_proc_head = 0xC0010000;
  now_pid = 2;
}

two_tasks-IsRing : IsRing two_tasks (0xC0020000 ∷ [])
two_tasks-IsRing = record { linked = (refl, refl); others = (omega arith, tt) }

ticks-IsRing_example :
    ((i t : ℕ)
      → get_elem? (0xC0010000 ∷ 0xC0020000 ∷ []) i ≡ some t
      → (ticks i two_tasks).current ≡ t)
    × ((ticks 2 two_tasks).current ≡ 0xC0010000)
ticks-IsRing_example =
    ticks-IsRing two_tasks (0xC0020000 ∷ []) refl (omega arith, (omega arith, tt)) two_tasks-IsRing

abbrev state_of : Run Heap ℕ → Heap
state_of (ok p h) = h
state_of _ = heap

-- The first fit is the free chunk at the start of the heap.
first_fit :
    kmalloc 0xC0200000 stack_size heap
    ≡ ok 0xE0000010 (state_of (kmalloc 0xC0200000 stack_size heap))
unfolding kmalloc use_found find_chunk take_chunk split_chunk load store update write
first_fit = refl

kernel_thread-IsInserted_example :
    Returns
      (IsInserted 0xC0100000 0xC0100100 7 0xE0000010
        (state_of (kmalloc 0xC0200000 stack_size heap))
        (0xC0020000 ∷ [])
        two_tasks)
      (kernel_thread 0xC0200000 0xC0100000 0xC0100100 7 two_tasks)
kernel_thread-IsInserted_example =
    kernel_thread-IsInserted 0xC0200000 0xC0100000 0xC0100100 7 two_tasks (0xC0020000 ∷ [])
      0xE0000010 (state_of (kmalloc 0xC0200000 stack_size heap)) first_fit (omega arith)
      (omega arith) (omega arith) (omega arith, (omega arith, tt)) two_tasks-IsRing (omega arith)

registers_of-schedule_example :
    registers_of (schedule two_tasks) 0xC0020000 ≡ registers_of two_tasks 0xC0020000
registers_of-schedule_example = registers_of-schedule two_tasks 0xC0020000
