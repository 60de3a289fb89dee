-- ===== src/Boot/RunningTests.antt =====
-- The start of a kernel of 7 MB and its tables on a machine with 64 MB, and parts of it.
use bit_simple_kernel.Prelude.{◌≡◌, false, none, [], ok, Returns, Returns-ok, arith, refl}
use bit_simple_kernel.Melf.{Elf, elf_from_mutilboot, find_tables}
use bit_simple_kernel.Task.{zero_task}
use bit_simple_kernel.Boot.Memory.{boot_heap}
use bit_simple_kernel.Boot.Kernel.{Kernel, Image, kern_init}
use bit_simple_kernel.Boot.Running.{IsBootable, IsRunning, kern_init-IsRunning}
use bit_simple_kernel.Idt.{PtRegs}
use bit_simple_kernel.Boot.Interrupts.{on_irq, IsSwitched, on_irq-IsSwitched}
use bit_simple_kernel.Boot.Tests.{
  region, no_headers, kernel-IsImage, whole_map, whole_map-OneRegion,
}

abbrev no_tables : Elf
no_tables = record {
  symtab = λ _. record { name = 0; value = 0; size = 0; info = 0; other = 0; shndx = 0 };
  symtabsz = 0;
  strtab = 0;
  strtabsz = 0;
}

abbrev image : Image
image = record {
  kern_start = 0xC0100000;
  kern_end = 0xC0900000;
  kern_stack = 0xC0110000;
  pgd_kern = 0xC0200000;
  pte_kern = 0xC0300000;
  gdt_entries = 0xC0120000;
  idt_entries = 0xC0121000;
  isr = λ n. 0xC0130000;
  irq = λ n. 0xC0131000;
  thread = 0xC0132000;
  kthread_exit = 0xC0133000;
  strtab_name = 0xC0140000;
  symtab_name = 0xC0140010;
  mem = λ _. 0;
  mutilboot = record { num = 0; addr = 0; shndx = 0 };
  local_elf = no_tables;
  mmap = whole_map;
}

abbrev kernel : Kernel
kernel = record {
  tty = record {
    console = record { video_memory = λ _. 0; cursor_x = 0; cursor_y = 0; ports = [] };
    mem = λ _. 0;
  };
  gdt = record {
    gdt_entries = λ _. record {
      limit_low = 0;
      base_low = 0;
      base_middle = 0;
      access = 0;
      granularty = 0;
      base_high = 0;
    };
    gdt_ptr = record { limit = 0; base = 0 };
  };
  idt = record {
    idt_entries = λ _. record { base_lo = 0; sel = 0; always0 = 0; flags = 0; base_hi = 0 };
    idt_ptr = record { limit = 0; base = 0 };
    interrupt_handlers = λ _. none;
    ports = [];
  };
  kernel_elf = no_tables;
  sched = record {
    heap = boot_heap (λ _. 0) no_headers;
    tasks = λ _. zero_task;
    words = λ _. 0;
    cpu = zero_task.context;
    current = 0;
    running_proc_head = 0;
    now_pid = 0;
  };
  cr3 = 0x1000;
  interrupts = false;
}

kernel-IsBootable : IsBootable image region (λ _. 0) no_headers no_tables kernel
unfolding elf_from_mutilboot find_tables
kernel-IsBootable = record {
  tables = refl;
  one_region = whole_map-OneRegion;
  start = refl;
  image = kernel-IsImage;
  enough = omega arith;
  stack_above = omega arith;
  stack_below = omega arith;
}

kern_init-IsRunning_example :
    Returns (λ _ t. IsRunning image region no_tables kernel t) (kern_init image kernel)
kern_init-IsRunning_example =
    kern_init-IsRunning image region (λ _. 0) no_headers no_tables kernel kernel-IsBootable

-- The kernel that has been started, and the first tick of its timer.
started :
    (u : Unit {0}) × (t : Kernel) × (kern_init image kernel ≡ ok u t)
    × IsRunning image region no_tables kernel t
started =
    Returns-ok (kern_init image kernel)
      (kern_init-IsRunning image region (λ _. 0) no_headers no_tables kernel kernel-IsBootable)

abbrev tick : PtRegs
tick = record {
  ds = 0x10;
  edi = 0;
  esi = 0;
  ebp = 0;
  esp = 0;
  ebx = 0;
  edx = 0;
  ecx = 0;
  eax = 0;
  int_no = 32;
  err_code = 0;
  eip = 0xC0101000;
  cs = 8;
  eflags = 0x200;
  user_esp = 0;
  ss = 0x10;
}

on_irq-IsSwitched_example : Returns (λ _ u. IsSwitched image started.1 u) (on_irq 0 tick started.1)
on_irq-IsSwitched_example =
    on_irq-IsSwitched image region no_tables kernel started.1 tick 0 started.3 (omega arith)
      (omega arith) refl
