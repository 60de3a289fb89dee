-- ===== src/Boot/Tests.antt =====
-- A machine with 64 MB above the first and an image of 8 MB, with its tables at the end.
use bit_simple_kernel.Prelude.{ℕ, true, [], ◌∷◌, arith, refl, inl, inr, List}
use bit_simple_kernel.Pmm.{MmapEntry}
use bit_simple_kernel.Pmm.Init.{OneRegion}
use bit_simple_kernel.Heap.{Header}
use bit_simple_kernel.Boot.Memory.{IsImage}

abbrev pub region : MmapEntry
region = record {
  base_addr_low = 0x100000;
  base_addr_high = 0;
  length_low = 0x4000000;
  length_high = 0;
  kind = 1;
}

abbrev pub no_headers : ℕ → Header
no_headers _ = record { prev = 0; next = 0; allocated = true; length = 0 }

pub kernel-IsImage : IsImage 0xC0200000 0xC0300000 0x800000 (λ _. 0)
kernel-IsImage = record {
  placed = record {
    pte_aligned = refl;
    pte_above = omega arith;
    pte_below = omega arith;
    separate = inl (omega arith);
  };
  start = record { words = λ a. omega arith; aligned = refl; no_tables = λ i h. refl };
  first_empty = refl;
  whole = refl;
  low = omega arith;
  pgd_inside = omega arith;
  pte_inside = omega arith;
}

-- The memory below 640 KB, the region, and a reserved one.
abbrev pub whole_map : List MmapEntry
whole_map =
    record {
      base_addr_low = 0;
      base_addr_high = 0;
      length_low = 0x9fc00;
      length_high = 0;
      kind = 1;
    }
    ∷ region
    ∷ record {
      base_addr_low = 0xfffc0000;
      base_addr_high = 0;
      length_low = 0x40000;
      length_high = 0;
      kind = 2;
    }
    ∷ []

pub whole_map-OneRegion : OneRegion 0x800000 region whole_map
whole_map-OneRegion = inr (refl, inl (refl, (refl, tt)))
