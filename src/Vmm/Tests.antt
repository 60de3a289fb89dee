-- ===== src/Vmm/Tests.antt =====
-- Page tables at an empty directory with three free pages.
use bit_simple_kernel.Prelude.{
  ℕ, ◌*◌, ◌/◌, ◌^◌, ◌<◌, ◌≡◌, ◌≢◌, refl, inr, true, false, none, some, arith, Returns, panic,
  out_of_memory, ◌↔◌,
}
use bit_simple_kernel.Vmm.{Machine, table_of, pgd_index, map, get_mapping}
use bit_simple_kernel.Vmm.Space.{IsSpace}
use bit_simple_kernel.Vmm.Map.{IsReady, Maps, map-Maps, map-panic_iff}
use bit_simple_kernel.Vmm.Ready.{map-IsReady}
use bit_simple_kernel.Vmm.Lookup.{map-get_mapping}

abbrev directory : ℕ
directory = 0xC0200000

abbrev empty_space : Machine
empty_space = record {
  pmm = record { stack = λ k. k * 0x1000; stack_top = 3; phy_page_count = 3 };
  mem = λ _. 0;
}

abbrev full_memory : Machine
full_memory = record empty_space {
  pmm = record { stack = λ _. 0; stack_top = 0; phy_page_count = 0 };
}

empty-IsSpace : IsSpace (λ _. 0) directory
empty-IsSpace = record {
  words = λ a. omega arith;
  aligned = refl;
  off_dir = λ i h ne. absurd (ne refl);
  apart = λ i j h k ne. absurd (ne refl);
}

empty-IsReady : IsReady empty_space directory
empty-IsReady = record {
  space = empty-IsSpace;
  linear_tables = λ i h. omega arith;
  linear_pages = λ k pos h. omega arith;
  fresh = λ k pos h. record {
    aligned = omega arith;
    small = omega arith;
    ne_zero = omega arith;
    off_dir = omega arith;
    unused = λ i l. omega arith;
  };
  distinct = λ j k pos lt h. omega arith;
}

map-Maps_example :
    Returns
      (λ _ t. Maps empty_space directory 0xE0000123 0x7654 3 t)
      (map directory 0xE0000123 0x7654 3 empty_space)
map-Maps_example =
    map-Maps directory 0xE0000123 0x7654 3 (omega arith) (omega arith) (omega arith) empty_space
      empty-IsReady (inr (omega arith))

map-panic_iff_example :
    (map directory 0xE0000123 0x7654 3 full_memory ≡ panic out_of_memory)
    ↔ (table_of (λ _. 0) directory (pgd_index 0xE0000123) ≡ 0) × (full_memory.pmm.stack_top ≡ 0)
map-panic_iff_example =
    map-panic_iff directory 0xE0000123 0x7654 3 (omega arith) (omega arith) (omega arith)
      full_memory

map-get_mapping_example :
    Returns
      (λ _ t.
        (get_mapping directory 0xE0000123 true t ≡ record { ret = some 1; pa = some 0x7000 })
        × (get_mapping directory 0xE0000123 false t ≡ record { ret = some 0; pa = none })
        × ((vb : ℕ)
            → vb < 2 ^ 32
            → 0xE0000123 / 2 ^ 12 ≢ vb / 2 ^ 12
            → (get_mapping directory vb true t).pa
              ≡ (get_mapping directory vb true empty_space).pa))
      (map directory 0xE0000123 0x7654 3 empty_space)
map-get_mapping_example =
    map-get_mapping directory 0xE0000123 0x7654 3 empty_space (omega arith) (omega arith)
      (omega arith) (omega arith) empty-IsReady (inr (omega arith))

map-IsReady_example :
    Returns (λ _ t. IsReady t directory) (map directory 0xE0000123 0x7654 3 empty_space)
map-IsReady_example =
    map-IsReady directory 0xE0000123 0x7654 3 empty_space (omega arith) (omega arith) (omega arith)
      empty-IsReady (inr (omega arith))
