-- ===== src/Gdt/Tests.antt =====
-- Descriptors at concrete parameters, for src/gdt/gdt.c.
use bit_simple_kernel.Prelude.{ℕ, ◌≡◌, ◌≢◌, arith}
use bit_simple_kernel.Gdt.{GdtEntry, Gdt, gdt_set_gate}
use bit_simple_kernel.Gdt.Segments.{Describes, gdt_set_gate-Describes}

abbrev zero_entry : GdtEntry
zero_entry = record {
  limit_low = 0;
  base_low = 0;
  base_middle = 0;
  access = 0;
  granularty = 0;
  base_high = 0;
}

abbrev zero_gdt : Gdt
zero_gdt = record { gdt_entries = λ _. zero_entry; gdt_ptr = record { limit = 0; base = 0 } }

gdt_set_gate-Describes_example :
    Describes
      ((gdt_set_gate 2 0x12345678 0xABCDE 0x92 0xCF zero_gdt).gdt_entries 2)
      0x12345678
      0xABCDE
      0x92
      0xC
    × ((i : ℕ)
        → i ≢ 2
        → (gdt_set_gate 2 0x12345678 0xABCDE 0x92 0xCF zero_gdt).gdt_entries i ≡ zero_entry)
gdt_set_gate-Describes_example =
    gdt_set_gate-Describes 2 0x12345678 0xABCDE 0x92 0xCF zero_gdt (omega arith) (omega arith)
