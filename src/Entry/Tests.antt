-- ===== src/Entry/Tests.antt =====
-- The temporary tables over an empty memory, for src/init/entry.c.
use bit_simple_kernel.Prelude.{ℕ, ◌+◌, ◌≡◌, arith, some}
use bit_simple_kernel.Vmm.{page_offset}
use bit_simple_kernel.Entry.{pgd_tmp, kern_entry}
use bit_simple_kernel.Entry.Paging.{translate, kern_entry-translate}

abbrev no_memory : ℕ → ℕ
no_memory a = 0

kern_entry-translate_example :
    (translate (kern_entry no_memory) pgd_tmp 0x101234 ≡ some 0x101234)
    × (translate (kern_entry no_memory) pgd_tmp (page_offset + 0x101234) ≡ some 0x101234)
kern_entry-translate_example = kern_entry-translate no_memory 0x101234 (omega arith)
