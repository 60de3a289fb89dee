-- ===== src/Boot/Kernel.antt =====
-- The kernel as a whole, and `kern_init` of src/init/entry.c up to its last loop, with the reports
-- `show_memory_map` of src/mm/pmm.c and `test_heap` of src/mm/heap.c. The loop is in `Threads`.
use bit_simple_kernel.Prelude.{
  ℕ, ◌+◌, ◌/◌, Bool, true, u32, sub32, List, [], ◌∷◌, Option, none, some, chars, ok, fault, Cmd,
  ◌>>=◌, ◌>>◌, pure, zoom,
}
use bit_simple_kernel.Console.{color, rc_black, rc_green, rc_red, rc_magenta, console_clear}
use bit_simple_kernel.Printk.Output.{Tty, printk, printk_color}
use bit_simple_kernel.Gdt.{Gdt, init_gdt}
use bit_simple_kernel.Idt.{Idt, init_idt, register_interrupt_handler}
use bit_simple_kernel.Timer.{init_timer}
use bit_simple_kernel.Melf.{Elf, Mutilboot, elf_from_mutilboot}
use bit_simple_kernel.Pmm.{MmapEntry, init_pmm}
use bit_simple_kernel.Vmm.{on_pmm, init_vmm, page_offset}
use bit_simple_kernel.Heap.{on_machine, init_heap, kmalloc, kfree}
use bit_simple_kernel.Entry.Handover.{stack_top_of}
use bit_simple_kernel.Task.{Sched, init_sched, kernel_thread, on_heap}

-- The functions that are registered as handlers.
pub data Handler : Type 0 where
  page_fault timer_callback : Handler

pub record Kernel : Type 0 where
  pub tty : Tty
  pub gdt : Gdt
  pub idt : Idt Handler
  pub kernel_elf : Elf
  pub sched : Sched
  pub cr3 : ℕ
  pub interrupts : Bool

-- What the linker and the boot loader set: addresses of data and code, and the memory map. `mem` is
-- the memory in which the sections of the image lie, and `local_elf` is what the variable of
-- `elf_from_mutilboot` holds before it is set.
pub record Image : Type 0 where
  pub kern_start : ℕ
  pub kern_end : ℕ
  pub kern_stack : ℕ
  pub pgd_kern : ℕ
  pub pte_kern : ℕ
  pub gdt_entries : ℕ
  pub idt_entries : ℕ
  pub isr : ℕ → ℕ
  pub irq : ℕ → ℕ
  pub thread : ℕ
  pub kthread_exit : ℕ
  pub strtab_name : ℕ
  pub symtab_name : ℕ
  pub mem : ℕ → ℕ
  pub mutilboot : Mutilboot
  pub local_elf : Elf
  pub mmap : List MmapEntry

-- `kern_stack_top`, as `kern_entry` sets it.
abbrev pub kern_stack_top : Image → ℕ
kern_stack_top i = stack_top_of i.kern_stack

abbrev pub on_tty : {A : Type 0} → Cmd Tty A → Cmd Kernel A
on_tty = zoom (λ k. k.tty) (λ t k. record k { tty = t })

abbrev pub on_sched : {A : Type 0} → Cmd Sched A → Cmd Kernel A
on_sched = zoom (λ k. k.sched) (λ s k. record k { sched = s })

-- `printk` and `printk_color` with a list of arguments.
abbrev pub print : List ℕ → List ℕ → Cmd Kernel (Unit {0})
print format args = on_tty (printk format args)

abbrev pub print_color : ℕ → ℕ → List ℕ → List ℕ → Cmd Kernel (Unit {0})
print_color back fore format args = on_tty (printk_color back fore format args)

abbrev pub change : (Kernel → Kernel) → Cmd Kernel (Unit {0})
change f k = ok tt (f k)

-- An access outside of an array, or a division by zero.
abbrev pub if_some : {A : Type 0} → (A → Kernel → Kernel) → Option A → Cmd Kernel (Unit {0})
if_some put none k = fault
if_some put (some a) k = ok tt (put a k)

-- The loop of `show_memory_map`.
unfoldable pub show_entries : List MmapEntry → Cmd Kernel (Unit {0})
show_entries [] = pure tt
show_entries (e ∷ es) = do
  print (chars "base_addr = 0x%X%08X, length = 0x%X%08X, type = 0x%X\n")
      (e.base_addr_high ∷ e.base_addr_low ∷ e.length_high ∷ e.length_low ∷ e.kind ∷ [])
  show_entries es

unfoldable pub show_memory_map : List MmapEntry → Cmd Kernel (Unit {0})
show_memory_map es = do print (chars "Memory map: \n") []; show_entries es

unfoldable pub test_heap : ℕ → Cmd Kernel (Unit {0})
test_heap pgd = do
  print_color (color rc_black) (color rc_magenta) (chars "Test kmalloc() && kfree() now ...\n\n") []
  addr1 ← on_sched (on_heap (kmalloc pgd 50))
  print (chars "kmalloc     50 bytes in 0x%X\n") (addr1 ∷ [])
  addr2 ← on_sched (on_heap (kmalloc pgd 500))
  print (chars "kmalloc    500 bytes in 0x%X\n") (addr2 ∷ [])
  addr3 ← on_sched (on_heap (kmalloc pgd 5000))
  print (chars "kmalloc   5000 bytes in 0x%X\n") (addr3 ∷ [])
  addr4 ← on_sched (on_heap (kmalloc pgd 50000))
  print (chars "kmalloc  50000 bytes in 0x%X\n") (addr4 ∷ [])
  on_sched (on_heap (kfree pgd addr1))
  print (chars "free mem in 0x%X\n") (addr1 ∷ [])
  on_sched (on_heap (kfree pgd addr2))
  print (chars "free mem in 0x%X\n") (addr2 ∷ [])
  on_sched (on_heap (kfree pgd addr3))
  print (chars "free mem in 0x%X\n") (addr3 ∷ [])
  on_sched (on_heap (kfree pgd addr4))
  print (chars "free mem in 0x%X\n") (addr4 ∷ [])

-- `init_vmm`, with the handler that it registers and the register that it loads.
unfoldable pub init_paging : ℕ → ℕ → Cmd Kernel (Unit {0})
init_paging pgd pte = do
  on_sched (on_heap (on_machine (λ m. ok tt (init_vmm pgd pte m))))
  change (λ k. record k { idt = register_interrupt_handler 14 page_fault k.idt })
  change (λ k. record k { cr3 = sub32 pgd page_offset })

module _ (i : Image) where
  abbrev pub kern_size : ℕ
  kern_size = sub32 i.kern_end i.kern_start

  -- The first part of `kern_init`: `init_debug`, the tables of descriptors, the screen and the timer.
  unfoldable pub init_devices : Cmd Kernel (Unit {0})
  init_devices = do
    (λ k.
        if_some (λ e k. record k { kernel_elf = e })
          (elf_from_mutilboot i.mem i.strtab_name i.symtab_name i.mutilboot i.local_elf) k)
    change (λ k. record k { gdt = init_gdt i.gdt_entries k.gdt })
    change (λ k. record k { idt = init_idt i.isr i.irq i.idt_entries k.idt })
    change (λ k. record k { tty = record k.tty { console = console_clear k.tty.console } })
    print_color (color rc_black) (color rc_green) (chars "Hello, OS kernel~~~\n") []
    (λ k. if_some (λ d k. record k { idt = d }) (init_timer timer_callback 200 k.idt) k)

  -- The report about the memory.
  unfoldable pub show_memory : Cmd Kernel (Unit {0})
  show_memory = do
    print (chars "kernel in memory start: 0x%08X\n") (i.kern_start ∷ [])
    print (chars "kernel in memory end:   0x%08X\n") (i.kern_end ∷ [])
    print (chars "kernel in memory used:   %d KB\n\n") (u32 (kern_size + 1023) / 1024 ∷ [])
    show_memory_map i.mmap

  unfoldable pub init_all_memory : Cmd Kernel (Unit {0})
  init_all_memory = do
    on_sched (on_heap (on_machine (on_pmm (init_pmm kern_size i.mmap))))
    init_paging i.pgd_kern i.pte_kern
    on_sched (on_heap (λ h. ok tt (init_heap h)))

  -- The threads: the flow of control that runs, and a new one.
  unfoldable pub start_threads : Cmd Kernel (Unit {0})
  start_threads = do
    change (λ k. record k { sched = init_sched (kern_stack_top i) k.sched })
    pid ← on_sched (kernel_thread i.pgd_kern i.kthread_exit i.thread 0)
    change (λ k. record k { interrupts = true })

  unfoldable pub kern_init : Cmd Kernel (Unit {0})
  kern_init = do
    init_devices
    show_memory
    init_all_memory
    (λ k.
        print_color (color rc_black) (color rc_red)
          (chars "\nThe Count of Physical Memory Page is: %u\n\n")
          (k.sched.heap.machine.pmm.phy_page_count ∷ []) k)
    test_heap i.pgd_kern
    start_threads
