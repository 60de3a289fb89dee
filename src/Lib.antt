-- ===== src/Lib.antt =====
-- A model of the kernel: memory management, threads, interrupts, the console and the timer, with
-- the theorems that make each part correct.
--
-- The parts and their code:
--   Pmm      src/mm/pmm.c: the stack of free physical pages.
--   Vmm      src/mm/vmm.c: two-level page tables in a memory of words. `map` takes new tables from
--            `pmm_alloc_page`.
--   Heap     src/mm/heap.c: the heap. Its chunks form a doubly linked list over pages that come
--            from `pmm_alloc_page` and are mapped with `map`.
--   Task     src/kernel/task/task.c, src/kernel/sched/sched.c, src/kernel/sched/switch_to.s: the
--            circular list of threads, whose descriptors and stacks come from `kmalloc`.
--   Idt      src/idt/idt.c: the interrupt descriptors, the controllers, and the handlers.
--   Timer    src/drivers/timer.c: the timer, whose handler is registered with Idt.
--   Gdt      src/gdt/gdt.c: the segment descriptors.
--   Console  src/drivers/console.c: the text screen.
--   Printk   src/kernel/debug/printk.c: formatted output, which goes to Console.
--   Debug    src/kernel/debug/debug.c: the trace that `panic` prints, with the names from Melf.
--   PageFault  src/mm/page_fault.c: the report of a page fault.
--   Entry    src/init/entry.c: the temporary page tables, with which the kernel turns paging on, and
--            the switch to the kernel stack.
--   Boot     src/init/entry.c: `kern_init`. Boot.Kernel has the state of the whole kernel, its parts
--            above, and runs the calls of `kern_init` on it, with `show_memory_map` of src/mm/pmm.c
--            and `test_heap` of src/mm/heap.c; Boot.Interrupts runs the handlers of an interrupt on
--            that state.
--   Threads  src/init/entry.c: the last loop of `kern_init` and the function `thread`, which print in
--            turn, as steps that interleave.
--   Melf     src/kernel/debug/melf.c: the tables of the kernel image, and the function symbol of an
--            address.
--   Strings  src/libs/mstring.c: comparing, measuring, copying and joining strings.
--   Prelude  shared names, casts to the widths of C, arrays, runs of stateful code, and the bit
--            operations.
-- Each function of the code is a definition of the same name. A part's state is a record of its
-- static variables. An array is a function of the index. An operation on a state gives a result and
-- the new state, the failure of an `assert`, a fault, or the end of the fuel.
--
-- Numbers are naturals. A width is written out at the casts and sums that can pass it (`u8`, `u16`,
-- `u32`, `u31`, `sub32`). Pids are not cut, so the model agrees with the code below 2^31 of them.
--
-- Fuel: the loop of `init_pmm` gets two rounds more than there are pages, and the walks over
-- chunks and pages of the heap get 2^28 + 1 rounds, since each chunk has at least the 16 bytes of
-- its header and each page 4096 bytes of the 2^32. The walk over the tasks gets 2^19 rounds, one for
-- each 8 KB. The loop of `vsprintf` gets a round for each character of the format, since each round
-- passes one, a number has 32 digits at most, and a stack trace gets 2^32 rounds. The loops over a
-- string take their fuel as an argument, and want more of it than the string has characters; those
-- of `vsprintf` and `elf_from_mutilboot` get 2^32, the size of the memory; in `vsprintf` a text that
-- does not end by then faults, since not all of the memory is mapped. The theorems on
-- `init_pmm`, `kmalloc`, `kfree`, `kernel_thread`, `vsprintf`, `panic`, `kern_init` and the strings say
-- that they return, under the conditions that they name.
--
-- Histories: Heap.History has the lists of calls of `kmalloc` and `kfree` as a step relation on the
-- heap, the blocks and what is allocated; Threads has the interleavings of the two threads.
--
-- Not modelled: what comes behind an endless loop, and the assembly files but for `switch_to`; the
-- stubs of the interrupts are addresses, and a handler runs on the state that the interrupt finds.
-- Memory that the code reads or writes does not fault but for the tables that `map` writes behind
-- the linear map, the chunks of the heap behind its end, and a text of `vsprintf` without an end.
-- The headers of the heap's chunks stand in a map of their own; that the pages of the heap are
-- present in the page tables is a part of `IsBacked`. Widths and precisions of `vsprintf` from 2^31
-- on, which overflow in the code, are ruled out by `IsDirective`.
-- In the theorems on the start the pages come from one entry of the memory map. Loading the descriptor
-- registers and flushing caches have no effect on the states; cr3, cr0 and esp are recorded where
-- the start sets them. The memory that `printk` reads its text arguments from is not that of the
-- page tables, which is a map of words. In the parts besides Printk, Debug, PageFault, Threads and
-- Boot printing is left out, and a failed `assert` ends the run.
pub mod Prelude
pub mod Pmm
pub mod Console
pub mod Vmm
pub mod Heap
pub mod Gdt
pub mod Idt
pub mod Timer
pub mod Task
pub mod Strings
pub mod Melf
pub mod Entry
pub mod Boot
pub mod Threads
pub mod Printk
pub mod Debug
pub mod PageFault
