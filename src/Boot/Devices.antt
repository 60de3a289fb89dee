-- ===== src/Boot/Devices.antt =====
-- The parts of `kern_init` of src/init/entry.c that set up devices, memory and threads.
use bit_simple_kernel.Prelude.{
  ◌/◌, ◌≡◌, ap, refl, [], ◌∷◌, some, arith, chars, Run, ok, panic, fault, out_of_fuel, and_then,
  sub32,
}
use bit_simple_kernel.Console.{color, rc_black, rc_green, console_clear}
use bit_simple_kernel.Printk.Output.{Tty}
use bit_simple_kernel.Printk.Plain.{printk-plain}
use bit_simple_kernel.Gdt.{init_gdt}
use bit_simple_kernel.Idt.{Idt, init_idt, register_interrupt_handler}
use bit_simple_kernel.Timer.{init_timer, set_divisor, irq0, hz}
use bit_simple_kernel.Melf.{Elf, elf_from_mutilboot}
use bit_simple_kernel.Pmm.{init_pmm}
use bit_simple_kernel.Vmm.{on_pmm, init_vmm, page_offset}
use bit_simple_kernel.Heap.{Heap, on_machine, init_heap}
use bit_simple_kernel.Boot.{init_memory}
use bit_simple_kernel.Boot.Kernel.{
  Kernel, Image, Handler, page_fault, timer_callback, kern_size, print_color, init_devices,
  init_paging, init_all_memory, on_sched,
}
use bit_simple_kernel.Task.{on_heap}
use bit_simple_kernel.Boot.Reports.{Line, with_log, bind-ok, print-ok, on_heap-ok}

-- The tables of interrupts after the first part.
abbrev pub idt_of : Image → Idt Handler → Idt Handler
idt_of i s =
    set_divisor (hz / 200)
      (register_interrupt_handler irq0 timer_callback (init_idt i.isr i.irq i.idt_entries s))

abbrev pub hello : Line
hello = record {
  back = color rc_black;
  fore = color rc_green;
  text = chars "Hello, OS kernel~~~\n";
}

abbrev pub cleared : Tty → Tty
cleared u = record u { console = console_clear u.console }

abbrev pub with_devices : Image → Elf → Kernel → Kernel
with_devices i elf k = record k {
  kernel_elf = elf;
  gdt = init_gdt i.gdt_entries k.gdt;
  idt = idt_of i k.idt;
  tty = with_log (hello ∷ []) (cleared k.tty);
}

pub init_devices-ok :
    (i : Image) (elf : Elf) (k : Kernel)
    → elf_from_mutilboot i.mem i.strtab_name i.symtab_name i.mutilboot i.local_elf ≡ some elf
    → init_devices i k ≡ ok tt (with_devices i elf k)
unfolding init_devices init_timer chars
init_devices-ok i elf k e =
    let title = chars "Hello, OS kernel~~~\n" in
    let s : Kernel = record k {
      kernel_elf = elf;
      gdt = init_gdt i.gdt_entries k.gdt;
      idt = init_idt i.isr i.irq i.idt_entries k.idt;
      tty = cleared k.tty;
    } in
    let said =
      (print-ok title [] title s (color rc_black) (color rc_green)
        (printk-plain title s.tty refl (omega arith))).0 in
    rw e (bind-ok (print_color (color rc_black) (color rc_green) title []) _ s said refl)

-- A run of two steps of which the second one always succeeds.
two_steps :
    (r : Run Heap (Unit {0})) (f : Heap → Heap) (t : Heap)
    → and_then r (λ _ s. ok tt (f s)) ≡ ok tt t
    → (s : Heap) × (r ≡ ok tt s) × (f s ≡ t)
two_steps (ok _ s) f t e = (s, refl, cc)
two_steps (panic p) f t e = absurd (cc)
two_steps fault f t e = absurd (cc)
two_steps out_of_fuel f t e = absurd (cc)

-- The kernel with its memory.
abbrev pub with_memory : Image → Heap → Kernel → Kernel
with_memory i h k = record k {
  sched = record k.sched { heap = h };
  idt = register_interrupt_handler 14 page_fault k.idt;
  cr3 = sub32 i.pgd_kern page_offset;
}

pub init_all_memory-ok :
    (i : Image) (k : Kernel) (t : Heap)
    → init_memory i.pgd_kern i.pte_kern (kern_size i) i.mmap k.sched.heap ≡ ok tt t
    → init_all_memory i k ≡ ok tt (with_memory i t k)
unfolding init_memory init_all_memory init_paging
init_all_memory-ok i k t e =
    let fill = on_machine (on_pmm (init_pmm (kern_size i) i.mmap)) in
    let f : Heap → Heap =
      λ s. init_heap (record s { machine = init_vmm i.pgd_kern i.pte_kern s.machine }) in
    let (s, first, last) = two_steps (fill k.sched.heap) f t e in
    bind-ok (on_sched (on_heap fill)) _ k (on_heap-ok fill k first)
      (unfold init_heap in ap (λ h. ok tt (with_memory i h k)) last)
