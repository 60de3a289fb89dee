-- ===== src/Gdt/Segments.antt =====
-- What the processor reads from a segment descriptor, and the descriptors of src/gdt/gdt.c.
use bit_simple_kernel.Prelude.{
  ℕ, zero, suc, if◌then◌else◌, ◌==◌, ◌+◌, ◌*◌, ◌/◌, ◌%◌, ◌^◌, ◌≤◌, ◌<◌, ◌-◌, ◌≡◌, ◌≢◌, ◌∙◌, refl,
  ap, u8, u16, shr, write, write_self, write_ne, bit_and, bit_or, arith,
}
use bit_simple_kernel.Prelude.Bits.{bit_and_low, bit_and_high, bit_or_fields_swapped}
use bit_simple_kernel.Gdt.{GdtEntry, Gdt, gdt_set_gate, init_gdt}

abbrev pub segment_base : GdtEntry → ℕ
segment_base e = e.base_low + e.base_middle * 2 ^ 16 + e.base_high * 2 ^ 24

abbrev pub segment_limit : GdtEntry → ℕ
segment_limit e = e.limit_low + e.granularty % 16 * 2 ^ 16

abbrev pub segment_flags : GdtEntry → ℕ
segment_flags e = e.granularty / 16

-- Descriptor `e` is that of a segment with these parameters.
pub record Describes (e : GdtEntry) (base limit access flags : ℕ) : Type 0 where
  pub base_is : segment_base e ≡ base
  pub limit_is : segment_limit e ≡ limit
  pub access_is : e.access ≡ access
  pub flags_is : segment_flags e ≡ flags

granularty_fields :
    (limit gran : ℕ)
    → gran < 2 ^ 8
    → u8 (bit_or (u8 (bit_and (shr limit 16) 0x0f)) (bit_and gran 0xf0))
      ≡ gran / 16 * 16 + limit / 2 ^ 16 % 16
granularty_fields limit gran h =
    rw (bit_and_low 4 (limit / 2 ^ 16), bit_and_high 4 4 gran (omega arith))
      (ap u8 (
          ap (λ (r : ℕ). bit_or r (gran / 2 ^ 4 * 2 ^ 4)) (omega arith)
          ∙ bit_or_fields_swapped 4 (gran / 2 ^ 4) (limit / 2 ^ 16 % 2 ^ 4) (omega arith))
        ∙ omega arith)

gate-Describes :
    (num base limit access gran : ℕ) (g : Gdt)
    → base < 2 ^ 32
    → gran < 2 ^ 8
    → Describes
        ((gdt_set_gate num base limit access gran g).gdt_entries num)
        base
        (limit % 2 ^ 20)
        access
        (gran / 16)
unfolding gdt_set_gate
gate-Describes num base limit access gran g h k =
    let new : GdtEntry = record {
      limit_low = u16 (bit_and limit 0xffff);
      base_low = u16 (bit_and base 0xffff);
      base_middle = u8 (bit_and (shr base 16) 0xff);
      access = access;
      granularty = u8 (bit_or (u8 (bit_and (shr limit 16) 0x0f)) (bit_and gran 0xf0));
      base_high = u8 (bit_and (shr base 24) 0xff);
    } in
    rw (write_self g.gdt_entries num new) (record {
      base_is = omega (
        arith,
        bit_and_low 16 base,
        bit_and_low 8 (base / 2 ^ 16),
        bit_and_low 8 (base / 2 ^ 24),
      );
      limit_is = omega (arith, bit_and_low 16 limit, granularty_fields limit gran k);
      access_is = refl;
      flags_is = omega (arith, granularty_fields limit gran k);
    })

-- `gdt_set_gate` writes a descriptor from which the processor reads the whole base, the 20 low bits
-- of the limit, the access byte and the high half of `gran`, and no other descriptor changes. The
-- base is of 32 bits and `gran` a byte.
pub gdt_set_gate-Describes :
    (num base limit access gran : ℕ) (g : Gdt)
    → base < 2 ^ 32
    → gran < 2 ^ 8
    → Describes
        ((gdt_set_gate num base limit access gran g).gdt_entries num)
        base
        (limit % 2 ^ 20)
        access
        (gran / 16)
      × ((i : ℕ)
          → i ≢ num
          → (gdt_set_gate num base limit access gran g).gdt_entries i ≡ g.gdt_entries i)
unfolding gdt_set_gate
gdt_set_gate-Describes num base limit access gran g h k =
    (gate-Describes num base limit access gran g h k, λ i n. write_ne g.gdt_entries num _ i n)

-- The access bytes of the four segments.
abbrev segment_access : ℕ → ℕ
segment_access i = if i == 1 then 0x9A else if i == 2 then 0x92 else if i == 3 then 0xFA else 0xF2

-- After `init_gdt` the four segments of the kernel and of the user are flat: each starts at 0, has
-- the largest limit in units of 4 KB, and its own access byte.
init_gdt-flat :
    (entries : ℕ) (g : Gdt) (i : ℕ)
    → 1 ≤ i
    → i ≤ 4
    → Describes ((init_gdt entries g).gdt_entries i) 0 (2 ^ 20 - 1) (segment_access i) 0xC
unfolding init_gdt gdt_set_gate write
init_gdt-flat entries g zero h k = absurd (omega arith)
init_gdt-flat entries g (suc zero) h k = record {
  base_is = refl;
  limit_is = refl;
  access_is = refl;
  flags_is = refl;
}
init_gdt-flat entries g (suc (suc zero)) h k = record {
  base_is = refl;
  limit_is = refl;
  access_is = refl;
  flags_is = refl;
}
init_gdt-flat entries g (suc (suc (suc zero))) h k = record {
  base_is = refl;
  limit_is = refl;
  access_is = refl;
  flags_is = refl;
}
init_gdt-flat entries g (suc (suc (suc (suc zero)))) h k = record {
  base_is = refl;
  limit_is = refl;
  access_is = refl;
  flags_is = refl;
}
init_gdt-flat entries g (suc (suc (suc (suc (suc i))))) h k = absurd (omega arith)
