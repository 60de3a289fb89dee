-- ===== src/Boot.antt =====
-- How `kern_init` of src/init/entry.c sets up memory: the calls of `init_pmm`, `init_vmm` and
-- `init_heap`, in this order.
pub mod Memory
pub mod Kernel
pub mod HeapRun
pub mod Reports
pub mod HeapTest
pub mod MemoryMap
pub mod Devices
pub mod Running
pub mod Interrupts
mod Tests
mod RunningTests
use bit_simple_kernel.Prelude.{ℕ, List, Cmd, and_then, ok}
use bit_simple_kernel.Pmm.{MmapEntry, init_pmm}
use bit_simple_kernel.Vmm.{on_pmm, init_vmm}
use bit_simple_kernel.Heap.{Heap, on_machine, init_heap}

unfoldable pub init_memory : ℕ → ℕ → ℕ → List MmapEntry → Cmd Heap (Unit {0})
init_memory pgd_kern pte_kern kern_size es s =
    and_then (on_machine (on_pmm (init_pmm kern_size es)) s)
      λ _ s₁. ok tt (init_heap (record s₁ { machine = init_vmm pgd_kern pte_kern s₁.machine }))
