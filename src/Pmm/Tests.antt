-- ===== src/Pmm/Tests.antt =====
-- The page stack at small states.
use bit_simple_kernel.Prelude.{
  write, ◌*◌, ◌≡◌, refl, List, [], ◌∷◌, some, panic, out_of_memory, Returns, arith, get_elem?,
}
use bit_simple_kernel.Pmm.{
  Pmm, MmapEntry, pmm_max_size, pmm_alloc_page, pmm_free_page, init_pmm, add_entry, add_pages,
  count_page,
}
use bit_simple_kernel.Pmm.Stack.{free_pages, outcome, pmm-refines}
use bit_simple_kernel.Pmm.Init.{Initialised, init_pmm-Initialised}
use bit_simple_kernel.Pmm.Boot.{boot_pmm, init_pmm-above_limit}

-- Two free pages.
abbrev two_pages : Pmm
two_pages = record { stack = λ i. i * 0x1000; stack_top = 2; phy_page_count = 2 }

-- The usable region of a machine with 1 MB + 16 KB, after a reserved one.
abbrev small_map : List MmapEntry
small_map =
    record {
      base_addr_low = 0;
      base_addr_high = 0;
      length_low = 0x9fc00;
      length_high = 0;
      kind = 1;
    }
    ∷ record {
      base_addr_low = 0x100000;
      base_addr_high = 0;
      length_low = 0x4000;
      length_high = 0;
      kind = 1;
    }
    ∷ []

abbrev large_region : MmapEntry
large_region = record {
  base_addr_low = 0x100000;
  base_addr_high = 0;
  length_low = 0x3ff00000;
  length_high = 0;
  kind = 1;
}

small_map_pages :
    outcome (init_pmm 0x1000 small_map boot_pmm) ≡ some (tt, 0x103000 ∷ 0x102000 ∷ 0x101000 ∷ [])
unfolding init_pmm add_entry add_pages count_page pmm_free_page write
small_map_pages = refl

no_page_left : pmm_alloc_page boot_pmm ≡ panic out_of_memory
unfolding pmm_alloc_page
no_page_left = refl

init_pmm-Initialised_example :
    Returns (Initialised 0x1000 small_map boot_pmm) (init_pmm 0x1000 small_map boot_pmm)
init_pmm-Initialised_example =
    init_pmm-Initialised 0x1000 small_map boot_pmm (omega arith) (omega arith) (omega arith)

init_pmm-above_limit_example :
    Returns
      (λ _ t. get_elem? (free_pages t) 0 ≡ some pmm_max_size)
      (init_pmm 0x20000 (large_region ∷ []) boot_pmm)
init_pmm-above_limit_example =
    init_pmm-above_limit 0x20000 large_region refl refl refl (omega arith) (omega arith)
      (omega arith)

pmm-refines_example :
    (outcome (pmm_alloc_page two_pages) ≡ some (0x2000, 0x1000 ∷ []))
    × (outcome (pmm_free_page 0x7000 two_pages) ≡ some (tt, 0x7000 ∷ 0x2000 ∷ 0x1000 ∷ []))
pmm-refines_example = pmm-refines 0x7000 two_pages
