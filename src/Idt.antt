-- ===== src/Idt.antt =====
-- Interrupts: src/idt/idt.c and src/include/idt.h. The addresses of the stubs of src/idt/idt_s.s are
-- parameters, and so is the type of the handlers. What a handler run does is an event, and the trace
-- of port writes has the latest first.
pub mod Gates
pub mod Dispatch
mod Tests
use bit_simple_kernel.Prelude.{
  ℕ, zero, suc, ◌+◌, ◌-◌, ◌*◌, ltb, leb, u8, u16, shr, write, bit_and, if◌then◌else◌, Option, none,
  some, List, [], ◌∷◌, ◌++◌,
}
use bit_simple_kernel.Console.{Outb, outb}

pub record IdtEntry : Type 0 where
  pub base_lo : ℕ
  pub sel : ℕ
  pub always0 : ℕ
  pub flags : ℕ
  pub base_hi : ℕ

pub record IdtPtr : Type 0 where
  pub limit : ℕ
  pub base : ℕ

pub record PtRegs : Type 0 where
  pub ds : ℕ
  pub edi : ℕ
  pub esi : ℕ
  pub ebp : ℕ
  pub esp : ℕ
  pub ebx : ℕ
  pub edx : ℕ
  pub ecx : ℕ
  pub eax : ℕ
  pub int_no : ℕ
  pub err_code : ℕ
  pub eip : ℕ
  pub cs : ℕ
  pub eflags : ℕ
  pub user_esp : ℕ
  pub ss : ℕ

-- A handler that is `none` is the null pointer.
pub record Idt (H : Type 0) : Type 0 where
  pub idt_entries : ℕ → IdtEntry
  pub idt_ptr : IdtPtr
  pub interrupt_handlers : ℕ → Option H
  pub ports : List Outb

-- What happens while an interrupt is handled, in order: a port is written, a handler is called with
-- the saved registers, or the message about an interrupt that has none is printed.
pub data Event (H : Type 0) : Type 0 where
  sent : Outb → Event H
  called : H → PtRegs → Event H
  unhandled : ℕ → Event H

unfoldable pub register_interrupt_handler : {H : Type 0} → ℕ → H → Idt H → Idt H
register_interrupt_handler num func s = record s {
  interrupt_handlers = write s.interrupt_handlers (u8 num) (some func);
}

pub call_or_report : {H : Type 0} → Option H → PtRegs → List (Event H)
call_or_report none regs = unhandled regs.int_no ∷ []
call_or_report (some func) regs = called func regs ∷ []

unfoldable pub call_if_set : {H : Type 0} → Option H → PtRegs → List (Event H)
call_if_set none regs = []
call_if_set (some func) regs = called func regs ∷ []

-- `none` where the number is outside the array.
unfoldable pub isr_handler : {H : Type 0} → PtRegs → Idt H → Option (List (Event H))
isr_handler regs s =
    if ltb regs.int_no 256
    then some (call_or_report (s.interrupt_handlers regs.int_no) regs)
    else none

unfoldable pub irq_handler : {H : Type 0} → PtRegs → Idt H → Option (List (Event H))
irq_handler regs s =
    let slave = if leb 40 regs.int_no then sent (outb 0xA0 0x20) ∷ [] else [] in
    if ltb regs.int_no 256
    then some (slave ++ sent (outb 0x20 0x20) ∷ call_if_set (s.interrupt_handlers regs.int_no) regs)
    else none

-- The descriptor that `idt_set_gate` writes.
unfoldable pub gate : ℕ → ℕ → ℕ → IdtEntry
gate base sel flags = record {
  base_lo = u16 (bit_and base 0xffff);
  sel = sel;
  always0 = 0;
  flags = flags;
  base_hi = u16 (bit_and (shr base 16) 0xffff);
}

unfoldable pub idt_set_gate : {H : Type 0} → ℕ → ℕ → ℕ → ℕ → Idt H → Idt H
idt_set_gate num base sel flags s = record s {
  idt_entries = write s.idt_entries (u8 num) (gate base sel flags);
}

-- The ten port writes of `init_8259APIC`, the last one first.
unfoldable pub init_8259apic : {H : Type 0} → Idt H → Idt H
init_8259apic s = record s {
  ports =
      outb 0xA1 0x0
      ∷ outb 0x21 0x0
      ∷ outb 0xA1 0x01
      ∷ outb 0x21 0x01
      ∷ outb 0xA1 0x02
      ∷ outb 0x21 0x04
      ∷ outb 0xA1 0x28
      ∷ outb 0x21 0x20
      ∷ outb 0xA0 0x11
      ∷ outb 0x20 0x11
      ∷ s.ports;
}

-- `idt_set_gate(num + j, stub_{k + j}, 0x08, 0x8E)` for `j` from 0 to `n - 1`.
unfoldable pub set_gates : {H : Type 0} → (ℕ → ℕ) → ℕ → ℕ → ℕ → Idt H → Idt H
set_gates stub zero num k s = s
set_gates stub (suc n) num k s =
    set_gates stub n (num + 1) (k + 1) (idt_set_gate num (stub k) 0x08 0x8E s)

abbrev pub zero_entry : IdtEntry
zero_entry = record { base_lo = 0; sel = 0; always0 = 0; flags = 0; base_hi = 0 }

abbrev pub idt_entry_size : ℕ
idt_entry_size = 8

-- `bzero` of an array of 256 elements.
abbrev pub zeroed : {A : Type 0} → A → (ℕ → A) → ℕ → A
zeroed z a i = if ltb i 256 then z else a i

-- `isr i` and `irq i` are the addresses of the stubs, and `entries` is that of `idt_entries`.
unfoldable pub init_idt : {H : Type 0} → (ℕ → ℕ) → (ℕ → ℕ) → ℕ → Idt H → Idt H
init_idt isr irq entries s =
    let s₁ = init_8259apic s in
    let s₂ : Idt _ = record s₁ {
      interrupt_handlers = zeroed none s₁.interrupt_handlers;
      idt_ptr = record { limit = idt_entry_size * 256 - 1; base = entries };
      idt_entries = zeroed zero_entry s₁.idt_entries;
    } in
    idt_set_gate 255 (isr 255) 0x08 0x8E (set_gates irq 16 32 0 (set_gates isr 32 0 0 s₂))
