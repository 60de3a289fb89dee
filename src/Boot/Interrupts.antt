-- ===== src/Boot/Interrupts.antt =====
-- Interrupts in the running kernel: what `isr_handler` and `irq_handler` of src/idt/idt.c do with the
-- handlers `timer_callback` of src/drivers/timer.c and `page_fault` of src/mm/page_fault.c.
use bit_simple_kernel.Prelude.{
  ℕ, ◌+◌, ◌<◌, ◌≤◌, ◌==◌, ◌≡◌, ◌≢◌, ◌∙◌, ap, sym, refl, true, false, List, [], ◌∷◌, Option, none,
  some, arith, chars, fault, Cmd, ◌>>◌, pure, Returns,
}
use bit_simple_kernel.Console.{outb, color, rc_black, rc_blue}
use bit_simple_kernel.Idt.{
  Idt, PtRegs, Event, sent, called, unhandled, isr_handler, irq_handler, call_if_set,
}
use bit_simple_kernel.PageFault
use bit_simple_kernel.Melf.{Elf}
use bit_simple_kernel.Pmm.{MmapEntry}
use bit_simple_kernel.Heap.{heap_start}
use bit_simple_kernel.Task.{Sched, schedule, change_task_to, switch_to, stack_size}
use bit_simple_kernel.Task.Ring.{next_of}
use bit_simple_kernel.Task.Rounds.{registers_of-schedule, current-schedule}
use bit_simple_kernel.Boot.Kernel.{
  Kernel, Image, Handler, page_fault, timer_callback, on_tty, print_color, change, kern_stack_top,
}
use bit_simple_kernel.Boot.Running.{IsRunning, first_task, HasThreads}

-- A handler. `cr2` is the address of a page fault, which a register holds.
unfoldable pub run_handler : ℕ → Handler → PtRegs → Cmd Kernel (Unit {0})
run_handler cr2 page_fault regs = on_tty (PageFault.page_fault regs cr2)
run_handler cr2 timer_callback regs = change (λ k. record k { sched = schedule k.sched })

unfoldable pub run_event : ℕ → Event Handler → Cmd Kernel (Unit {0})
run_event cr2 (sent o) = change (λ k. record k { idt = record k.idt { ports = o ∷ k.idt.ports } })
run_event cr2 (called f regs) = run_handler cr2 f regs
run_event cr2 (unhandled n) =
    print_color (color rc_black) (color rc_blue) (chars "Unhandled interrupt: %d\n") (n ∷ [])

unfoldable pub run_events : ℕ → List (Event Handler) → Cmd Kernel (Unit {0})
run_events cr2 [] = pure tt
run_events cr2 (v ∷ vs) = run_event cr2 v >> run_events cr2 vs

-- The number of the interrupt is outside the array.
unfoldable pub if_events : ℕ → Option (List (Event Handler)) → Cmd Kernel (Unit {0})
if_events cr2 none = λ k. fault
if_events cr2 (some vs) = run_events cr2 vs

-- An exception, and a request of a device.
unfoldable pub on_isr : ℕ → PtRegs → Cmd Kernel (Unit {0})
on_isr cr2 regs k = if_events cr2 (isr_handler regs k.idt) k

unfoldable pub on_irq : ℕ → PtRegs → Cmd Kernel (Unit {0})
on_irq cr2 regs k = if_events cr2 (irq_handler regs k.idt) k

-- The new thread runs, and the first one can be resumed.
pub record IsSwitched (i : Image) (t u : Kernel) : Type 0 where
  pub current : u.sched.current ≡ heap_start + 16
  pub stack : u.sched.cpu.esp + 12 ≡ heap_start + 16 + stack_size
  pub entry : u.sched.words u.sched.cpu.esp ≡ i.thread
  pub return : u.sched.words (u.sched.cpu.esp + 4) ≡ i.kthread_exit
  pub saved : (u.sched.tasks (first_task i)).context ≡ t.sched.cpu
  pub acknowledged : u.idt.ports ≡ outb 0x20 0x20 ∷ t.idt.ports
  pub screen : u.tty ≡ t.tty

timer-events :
    (regs : PtRegs) (s : Idt Handler)
    → regs.int_no ≡ 32
    → s.interrupt_handlers 32 ≡ some timer_callback
    → irq_handler regs s ≡ some (sent (outb 0x20 0x20) ∷ called timer_callback regs ∷ [])
unfolding irq_handler call_if_set
timer-events regs s n h = rw (n, h) refl

words-schedule : (s : Sched) → (schedule s).words ≡ s.words
unfolding schedule change_task_to switch_to
words-schedule s = ground arith

-- One round of the scheduler between two threads, of which the first one runs.
module _ (i : Image) (pid : ℕ) (s : Sched) (h : HasThreads i pid s)
    (above : stack_size < kern_stack_top i) (below : kern_stack_top i ≤ heap_start) where
  current_is : (schedule s).current ≡ heap_start + 16
  current_is =
      let set : s.current ≢ 0 = omega (arith, h.current) in
      let link : next_of s s.current ≡ heap_start + 16 =
        ap (next_of s) (h.current ∙ sym h.head) ∙ h.ring.linked.0 in
      current-schedule s set ∙ link

  cpu_is : (schedule s).cpu ≡ (s.tasks (heap_start + 16)).context
  cpu_is =
      let moved = registers_of-schedule s (heap_start + 16) in
      let runs : (heap_start + 16 == (schedule s).current) ≡ true = ground (arith, current_is) in
      let waits : (heap_start + 16 == s.current) ≡ false = ground (arith, h.current) in
      rw (runs, waits) at moved

  saved_is : ((schedule s).tasks (first_task i)).context ≡ s.cpu
  saved_is =
      let moved = registers_of-schedule s (first_task i) in
      let waits : (first_task i == (schedule s).current) ≡ false = ground (arith, current_is) in
      let runs : (first_task i == s.current) ≡ true = ground (arith, h.current) in
      rw (waits, runs) at moved

-- The first tick of the timer in the kernel that `kern_init` has started is acknowledged, and starts
-- the new thread: its task is the current one, and the stack pointer is at the top of its stack,
-- where the address of its function is next, and behind it the address that the function returns
-- to. The registers of the first thread are saved in its descriptor. The kernel stack lies below
-- the heap.
pub on_irq-IsSwitched :
    (i : Image) (e : MmapEntry) (elf : Elf) (k t : Kernel) (regs : PtRegs) (cr2 : ℕ)
    → IsRunning i e elf k t
    → stack_size < kern_stack_top i
    → kern_stack_top i ≤ heap_start
    → regs.int_no ≡ 32
    → Returns (λ _ u. IsSwitched i t u) (on_irq cr2 regs t)
unfolding on_irq if_events run_events run_event run_handler
on_irq-IsSwitched i e elf k t regs cr2 r above below n =
    let events = timer-events regs t.idt n r.on_timer in
    let s = t.sched in
    let pid = k.sched.now_pid in
    let cpu = cpu_is i pid s r.threads above below in
    let words = words-schedule s in
    let started = r.threads.started in
    rw events (record {
      current = current_is i pid s r.threads above below;
      stack = rw cpu started.esp;
      entry = rw (cpu, words) started.entry;
      return = rw (cpu, words) started.return;
      saved = saved_is i pid s r.threads above below;
      acknowledged = refl;
      screen = refl;
    })
