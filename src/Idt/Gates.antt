-- ===== src/Idt/Gates.antt =====
-- Which stub the processor enters for each interrupt, by the table that src/idt/idt.c sets up.
use bit_simple_kernel.Prelude.{ℕ, ◌+◌, ◌-◌, ◌*◌, ◌^◌, ◌==◌, ltb, if◌then◌else◌, Option, none, some}
use bit_simple_kernel.Idt.{IdtEntry, Idt, gate, zero_entry}

abbrev pub gate_address : IdtEntry → ℕ
gate_address e = e.base_lo + e.base_hi * 2 ^ 16

-- The address the processor enters through a descriptor, none where it is not present.
abbrev pub entered : IdtEntry → Option ℕ
entered e = if ltb e.flags 0x80 then none else some (gate_address e)

-- The stub of interrupt `i`: the exceptions, then the 16 lines of the two controllers, and 255.
abbrev pub stub_of : (ℕ → ℕ) → (ℕ → ℕ) → ℕ → Option ℕ
stub_of isr irq i =
    if ltb i 32
    then some (isr i)
    else if ltb i 48
    then some (irq (i - 32))
    else if i == 255
    then some (isr 255)
    else none

-- The descriptors of `init_idt` over a table that is zero at `i`.
abbrev gate_of : (ℕ → ℕ) → (ℕ → ℕ) → ℕ → IdtEntry
gate_of isr irq i =
    if ltb i 32
    then gate (isr i) 0x08 0x8E
    else if ltb i 48
    then gate (irq (i - 32)) 0x08 0x8E
    else if i == 255
    then gate (isr 255) 0x08 0x8E
    else zero_entry
