-- ===== src/Gdt.antt =====
-- The global descriptor table: src/gdt/gdt.c and src/include/gdt.h. `gdt_flush` loads the register
-- and has no effect on the table.
pub mod Segments
mod Tests
use bit_simple_kernel.Prelude.{ℕ, u8, u16, shr, write, bit_and, bit_or, ◌-◌, ◌*◌}

pub record GdtEntry : Type 0 where
  pub limit_low : ℕ
  pub base_low : ℕ
  pub base_middle : ℕ
  pub access : ℕ
  pub granularty : ℕ
  pub base_high : ℕ

pub record GdtPtr : Type 0 where
  pub limit : ℕ
  pub base : ℕ

pub record Gdt : Type 0 where
  pub gdt_entries : ℕ → GdtEntry
  pub gdt_ptr : GdtPtr

abbrev pub gdt_length : ℕ
gdt_length = 5

abbrev pub gdt_entry_size : ℕ
gdt_entry_size = 8

unfoldable pub gdt_set_gate : ℕ → ℕ → ℕ → ℕ → ℕ → Gdt → Gdt
gdt_set_gate num base limit access gran g =
    let low_gran = u8 (bit_and (shr limit 16) 0x0f) in
    record g {
      gdt_entries = write g.gdt_entries num (record {
        limit_low = u16 (bit_and limit 0xffff);
        base_low = u16 (bit_and base 0xffff);
        base_middle = u8 (bit_and (shr base 16) 0xff);
        access = access;
        granularty = u8 (bit_or low_gran (bit_and gran 0xf0));
        base_high = u8 (bit_and (shr base 24) 0xff);
      });
    }

-- `entries` is the address of `gdt_entries`.
unfoldable pub init_gdt : ℕ → Gdt → Gdt
init_gdt entries g =
    let pointer : GdtPtr = record { limit = gdt_entry_size * gdt_length - 1; base = entries } in
    gdt_set_gate 4 0 0xffffffff 0xF2 0xCF (
      gdt_set_gate 3 0 0xffffffff 0xFA 0xCF (
        gdt_set_gate 2 0 0xffffffff 0x92 0xCF (
          gdt_set_gate 1 0 0xffffffff 0x9A 0xCF
            (gdt_set_gate 0 0 0 0 0 (record g { gdt_ptr = pointer })))))
