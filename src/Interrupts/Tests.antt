-- ===== src/Interrupts/Tests.antt =====
-- Runs of kernel/interrupts/idt.c at fixed inputs.
use mmd_os.Base.{
  ℕ, ◌+◌, ◌*◌, ◌%◌, ◌≡◌, refl, arith, if◌then◌else◌, ◌==◌, Option, none, List, [], ◌∷◌, replicate,
  get_or, ok,
}
use mmd_os.Process.{Context}
use mmd_os.Interrupts.{InterruptDescriptor, idt_init}
use mmd_os.Interrupts.Gates.{gate_of, interrupt_gate, is_filled, level_of, idt_init-gates}
use mmd_os.Interrupts.Lines.{
  Machine, Handler, irq_handler, irq_install_handler, irq_handler_dispatches,
}

abbrev no_gate : InterruptDescriptor
no_gate = record {
  address_low = 0;
  selector = 0;
  ist = 0;
  flags = 0;
  address_mid = 0;
  address_high = 0;
  reserved = 0;
}

abbrev empty_idt : List InterruptDescriptor
empty_idt = replicate 256 no_gate

-- Entry codes of 16 bytes each in the upper half.
abbrev stub : ℕ → ℕ
stub v = 0xffffffff80001000 + 16 * (v % 256)

idt_init-gates_example : gate_of (get_or (idt_init stub empty_idt) 32 no_gate) ≡ (
    if is_filled 32
    then interrupt_gate (stub 32) (level_of 32)
    else gate_of (get_or empty_idt 32 no_gate))
idt_init-gates_example = idt_init-gates stub empty_idt 32 no_gate refl (λ x. omega arith)

abbrev frame_of : ℕ → Context
frame_of p = record {
  rbp = 0;
  r8 = 0;
  rsi = 0;
  rdi = 5;
  rdx = 0;
  rcx = 0;
  rax = 0;
  int_number = if p == 0x100 then 44 else 32;
  iret_rip = 0;
  iret_cs = 0;
  iret_flags = 0;
  iret_rsp = 0;
  iret_ss = 0;
}

abbrev machine : Machine ℕ
machine = record { frames = frame_of; ports = []; world = 0 }

-- Counts the interrupts and goes on at frame 0x300.
abbrev counting : Handler ℕ
counting frame c = ok (0x300, record c { world = c.world + 1 })

abbrev counted : Machine ℕ
counted = record machine { world = 1 }

abbrev nothing_beyond : ℕ → Option (Handler ℕ)
nothing_beyond i = none

irq_handler_dispatches_example :
    irq_handler (irq_install_handler 12 counting (replicate 16 none)) nothing_beyond 0x100 machine
    ≡ ok (0x100, record counted { ports = (0x20, 0x20) ∷ (0xA0, 0x20) ∷ [] })
irq_handler_dispatches_example =
    irq_handler_dispatches 12 counting (replicate 16 none) nothing_beyond 0x100 machine 0x300
      counted (omega arith) refl refl refl

-- Exception 14 with a handler on line 14 that only counts.
abbrev faulting : Machine ℕ
faulting = record machine { frames = λ p. record (frame_of p) { int_number = 14 } }
