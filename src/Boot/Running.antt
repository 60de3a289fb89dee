-- ===== src/Boot/Running.antt =====
-- The state in which `kern_init` of src/init/entry.c comes to its last loop.
use bit_simple_kernel.Prelude.{
  ℕ, ◌+◌, ◌<◌, ◌≤◌, ◌≡◌, ◌∙◌, sym, refl, true, List, [], ◌∷◌, ◌++◌, none, some, arith, chars, ok,
  Cmd, Returns, Returns-ok, zoom-ok, sub32, write,
}
use bit_simple_kernel.Console.{color, rc_black, rc_red}
use bit_simple_kernel.Printk.Directive.{Directive, converted, unsigned, format_of, args_of, text_of}
use bit_simple_kernel.Printk.Output.{with_text}
use bit_simple_kernel.Idt.{Idt, register_interrupt_handler}
use bit_simple_kernel.Timer.{set_divisor}
use bit_simple_kernel.Melf.{Elf, elf_from_mutilboot}
use bit_simple_kernel.Pmm.{MmapEntry}
use bit_simple_kernel.Pmm.Init.{entry_count, OneRegion}
use bit_simple_kernel.Vmm.{page_offset}
use bit_simple_kernel.Heap.{Header, heap_start}
use bit_simple_kernel.Heap.Blocks.{block}
use bit_simple_kernel.Heap.Release.{Holds}
use bit_simple_kernel.Task.{Sched, init_sched, kernel_thread, stack_size}
use bit_simple_kernel.Task.Ring.{IsRing}
use bit_simple_kernel.Task.Start.{IsStarted, kernel_thread-IsInserted}
use bit_simple_kernel.Task.Rounds.{init_sched-IsAlone}
use bit_simple_kernel.Boot.{init_memory}
use bit_simple_kernel.Boot.Memory.{IsImage, boot_heap, init_memory-IsBooted}
use bit_simple_kernel.Boot.Kernel.{
  Kernel, Image, Handler, page_fault, timer_callback, kern_size, kern_stack_top, print_color,
  start_threads, kern_init, test_heap, init_all_memory, show_memory, init_devices,
}
use bit_simple_kernel.Boot.Reports.{
  Line, with_log, with_log-append, with_tty, with_heap, bind-ok, print-ok,
}
use bit_simple_kernel.Boot.HeapRun.{Allocates, allocate}
use bit_simple_kernel.Boot.HeapTest.{test_log, test_heap-IsTested}
use bit_simple_kernel.Boot.MemoryMap.{memory_log, show_memory-ok, one_line, one_line-Prints}
use bit_simple_kernel.Boot.Devices.{
  hello, cleared, with_devices, init_devices-ok, with_memory, init_all_memory-ok, idt_of,
}

abbrev pub count_line : ℕ → List Directive
count_line n =
    one_line (chars "\nThe Count of Physical Memory Page is: ") (converted [] [] none (unsigned n))
      (chars "\n\n")

-- What `kern_init` prints on the cleared screen, with `n` pages of memory.
abbrev pub boot_log : Image → ℕ → List Line
boot_log i n =
    hello
    ∷ (memory_log i
        ++ record { back = color rc_black; fore = color rc_red; text = text_of (count_line n) }
          ∷ test_log)

-- The conditions on the image and the memory.
pub record IsBootable (i : Image) (e : MmapEntry) (m : ℕ → ℕ) (headers : ℕ → Header) (elf : Elf)
    (k : Kernel) : Type 0 where
  pub tables :
      elf_from_mutilboot i.mem i.strtab_name i.symtab_name i.mutilboot i.local_elf ≡ some elf
  pub one_region : OneRegion (kern_size i) e i.mmap
  pub start : k.sched.heap ≡ boot_heap m headers
  pub image : IsImage i.pgd_kern i.pte_kern (kern_size i) m
  pub enough : 36 ≤ entry_count (kern_size i) e
  pub stack_above : stack_size < kern_stack_top i
  pub stack_below : kern_stack_top i ≤ heap_start

-- The descriptor of the flow of control that runs `kern_init`.
abbrev pub first_task : Image → ℕ
first_task i = sub32 (kern_stack_top i) stack_size

-- Two threads, of which the first one runs.
pub record HasThreads (i : Image) (pid : ℕ) (s : Sched) : Type 0 where
  pub current : s.current ≡ first_task i
  pub head : s.running_proc_head ≡ first_task i
  pub ring : IsRing s ((heap_start + 16) ∷ [])
  pub started : IsStarted i.kthread_exit i.thread 0 (pid + 1) (heap_start + 16) s
  pub next_pid : s.now_pid ≡ pid + 2

pub record IsRunning (i : Image) (e : MmapEntry) (elf : Elf) (k t : Kernel) : Type 0 where
  pub symbols : t.kernel_elf ≡ elf
  pub on_page_fault : t.idt.interrupt_handlers 14 ≡ some page_fault
  pub on_timer : t.idt.interrupt_handlers 32 ≡ some timer_callback
  pub paging : t.cr3 ≡ sub32 i.pgd_kern page_offset
  pub interrupts : t.interrupts ≡ true
  pub heap : Holds i.pgd_kern (block true (stack_size + 16) ∷ []) t.sched.heap
  pub threads : HasThreads i k.sched.now_pid t.sched
  pub screen : t.tty ≡ with_log (boot_log i (entry_count (kern_size i) e)) (cleared k.tty)

-- What `start_threads` leaves.
record IsThreaded (i : Image) (k t : Kernel) : Type 0 where
  after : Sched
  state : t ≡ record k { sched = after; interrupts = true }
  heap : Holds i.pgd_kern (block true (stack_size + 16) ∷ []) after.heap
  threads : HasThreads i k.sched.now_pid after

start_threads-IsThreaded :
    (i : Image) (k : Kernel)
    → Holds i.pgd_kern [] k.sched.heap
    → 8 ≤ k.sched.heap.machine.pmm.stack_top
    → stack_size < kern_stack_top i
    → kern_stack_top i ≤ heap_start
    → Returns (λ _ t. IsThreaded i k t) (start_threads i k)
unfolding start_threads
start_threads-IsThreaded i k h pages above below =
    let pgd = i.pgd_kern in
    let s = init_sched (kern_stack_top i) k.sched in
    let alone = init_sched-IsAlone (kern_stack_top i) k.sched in
    let memory : Allocates pgd stack_size [] s.heap =
      unfold init_sched in
      allocate pgd stack_size [] k.sched.heap h (record {
        small = omega arith;
        pages = omega (arith, h.backed.above);
        space = omega arith;
        links = refl;
      }) in
    let (pid, t, run, n) = Returns-ok (kernel_thread pgd i.kthread_exit i.thread 0 s) (
      kernel_thread-IsInserted pgd i.kthread_exit i.thread 0 s [] (heap_start + 16) memory.after
        memory.run (omega arith) (omega arith) (omega (arith, alone.head))
        (omega (arith, alone.head), tt) alone.ring (omega arith)) in
    let put : Sched → Kernel → Kernel = λ u q. record q { sched = u } in
    let done =
      zoom-ok (λ (q : Kernel). q.sched) put (kernel_thread pgd i.kthread_exit i.thread 0)
        (record k { sched = s }) run in
    rw done (record {
      after = t;
      state = refl;
      heap = rw n.heap memory.holds;
      threads = record {
        current = n.current ∙ alone.current;
        head = n.head ∙ alone.head;
        ring = n.ring;
        started = rw (← alone.next_pid) n.started;
        next_pid = omega (arith, n.next_pid, alone.next_pid);
      };
    })

count-ok :
    (n : ℕ) (k : Kernel)
    → print_color
        (color rc_black)
        (color rc_red)
        (chars "\nThe Count of Physical Memory Page is: %u\n\n")
        (n ∷ [])
        k
      ≡ ok tt
          (with_tty (with_text (color rc_black) (color rc_red) (text_of (count_line n)) k.tty) k)
unfolding chars format_of args_of
count-ok n k =
    (print-ok (format_of (count_line n)) (args_of (count_line n)) (text_of (count_line n)) k
      (color rc_black) (color rc_red)
      (one_line-Prints (chars "\nThe Count of Physical Memory Page is: ")
        (converted [] [] none (unsigned n)) (chars "\n\n") k.tty refl refl (tt, tt, tt, tt)
        (omega arith))).0

-- The handlers that are registered, behind the others.
handlers-set :
    (i : Image) (s : Idt Handler)
    → ((register_interrupt_handler 14 page_fault (idt_of i s)).interrupt_handlers 14
        ≡ some page_fault)
      × ((register_interrupt_handler 14 page_fault (idt_of i s)).interrupt_handlers 32
          ≡ some timer_callback)
unfolding register_interrupt_handler set_divisor write
handlers-set i s = (refl, refl)

-- `kern_init` comes to its last loop. By then `kernel_elf` holds what the search of the section table returned, interrupts 14 and 32 have
-- their handlers, the kernel runs on its own page directory, and interrupts are on; the heap has
-- passed its test and holds one block, the new thread's; the list has two threads, the flow of
-- control itself and the new one, which is ready to start; and the screen shows the lines of the
-- log, with the memory map, the number of pages and the addresses of the test. This wants a map in
-- which pages are taken from one entry only, at least 36 of them behind the image, static data that
-- starts as zeros, a kernel stack below the heap, and a search of the section table that meets no
-- fault.
pub kern_init-IsRunning :
    (i : Image) (e : MmapEntry) (m : ℕ → ℕ) (headers : ℕ → Header) (elf : Elf) (k : Kernel)
    → IsBootable i e m headers elf k
    → Returns (λ _ t. IsRunning i e elf k t) (kern_init i k)
unfolding kern_init
kern_init-IsRunning i e m headers elf k b =
    let pgd = i.pgd_kern in
    let n = entry_count (kern_size i) e in
    let (u, h, loaded, booted) =
      Returns-ok (init_memory pgd i.pte_kern (kern_size i) i.mmap (boot_heap m headers)) (
        init_memory-IsBooted pgd i.pte_kern (kern_size i) e i.mmap m headers b.image
          b.one_region) in
    let k₁ = with_devices i elf k in
    let k₂ = with_tty (with_log (memory_log i) k₁.tty) k₁ in
    let k₃ = with_memory i h k₂ in
    let k₄ =
      with_tty (with_text (color rc_black) (color rc_red) (text_of (count_line n)) k₃.tty) k₃ in
    let setup : init_all_memory i k₂ ≡ ok tt k₃ = init_all_memory-ok i k₂ h (rw b.start loaded) in
    let tested =
      test_heap-IsTested pgd k₄
        (record { linked = record { heap = booted.heap; backs = tt }; backed = booted.backed })
        booted.at_start (omega (arith, booted.pages, b.enough)) in
    let (u, k₅, test, c) = Returns-ok (test_heap pgd k₄) tested in
    let k₆ = with_tty (with_log test_log k₄.tty) (with_heap c.heap k₄) in
    let (u, t, threads, d) =
      Returns-ok (start_threads i k₆)
        (start_threads-IsThreaded i k₆ c.holds c.pages b.stack_above b.stack_below) in
    let run : kern_init i k ≡ ok tt t =
      bind-ok (init_devices i) _ k (init_devices-ok i elf k b.tables) (
        bind-ok (show_memory i) _ k₁ (show_memory-ok i k₁) (
          bind-ok (init_all_memory i) _ k₂ setup (
            bind-ok say_count _ k₃ (rw booted.counted (count-ok n k₃)) (
              bind-ok (test_heap pgd) (λ _. start_threads i) k₄ (rw (← c.state) test) threads)))) in
    rw run (record {
      symbols = rw d.state refl;
      on_page_fault = rw d.state (handlers-set i k.idt).0;
      on_timer = rw d.state (handlers-set i k.idt).1;
      paging = rw d.state refl;
      interrupts = rw d.state refl;
      heap = rw d.state d.heap;
      threads = rw d.state d.threads;
      screen =
          rw d.state
            (sym (with_log-append (memory_log i) _ (with_log (hello ∷ []) (cleared k.tty))));
    })
  where
    say_count : Cmd Kernel (Unit {0})
    say_count k =
        print_color (color rc_black) (color rc_red)
          (chars "\nThe Count of Physical Memory Page is: %u\n\n")
          (k.sched.heap.machine.pmm.phy_page_count ∷ []) k
