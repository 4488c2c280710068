-- ===== src/Interrupts.antt =====
-- The interrupt table and its gate descriptors: kernel/interrupts/idt.c.
mod Tests
pub mod Gates
pub mod Lines
use mmd_os.Base.{
  ℕ, zero, suc, ◌+◌, ◌*◌, ◌/◌, ◌^◌, Bool, if◌then◌else◌, List, [], ◌∷◌, set, bit_and, bit_or, u8,
}

-- `struct interrupt_descriptor`
pub record InterruptDescriptor : Type 0 where
  pub address_low : ℕ
  pub selector : ℕ
  pub ist : ℕ
  pub flags : ℕ
  pub address_mid : ℕ
  pub address_high : ℕ
  pub reserved : ℕ

abbrev pub flags_of : ℕ → ℕ
flags_of dpl = bit_or (bit_or 0b1110 (bit_and dpl 0b11 * 2 ^ 5)) (2 ^ 7)

unfoldable pub descriptor : ℕ → ℕ → InterruptDescriptor
descriptor handler dpl = record {
  address_low = bit_and handler 0xffff;
  selector = 0x28;
  ist = 0;
  flags = u8 (flags_of dpl);
  address_mid = bit_and (handler / 2 ^ 16) 0xffff;
  address_high = bit_and (handler / 2 ^ 32) 0xffffffff;
  reserved = 0;
}

-- The table `idt` is an argument and a result.
unfoldable pub set_interrupt_descriptor :
    ℕ → ℕ → ℕ → List InterruptDescriptor → List InterruptDescriptor
set_interrupt_descriptor vector handler dpl idt = set idt (u8 vector) (descriptor handler dpl)

-- The calls of `idt_init` in a row: the vectors from `vector` on, `count` of them, with one privilege
-- level. `stub` gives the address of each vector's entry code, which is assembly.
pub set_range : ℕ → ℕ → ℕ → (ℕ → ℕ) → List InterruptDescriptor → List InterruptDescriptor
set_range zero vector dpl stub idt = idt
set_range (suc count) vector dpl stub idt =
    set_range count (vector + 1) dpl stub (set_interrupt_descriptor vector (stub vector) dpl idt)

-- `idt_init` before it starts the interrupt controller and loads the table.
unfoldable pub idt_init : (ℕ → ℕ) → List InterruptDescriptor → List InterruptDescriptor
idt_init stub idt =
    set_interrupt_descriptor 128 (stub 128) 3
      (set_range 15 33 0 stub (set_range 1 32 3 stub (set_range 32 0 0 stub idt)))
