-- ===== src/Interrupts/Gates.antt =====
-- What the processor reads from the gates that kernel/interrupts/idt.c writes.
use mmd_os.Base.{
  ℕ, zero, suc, ◌+◌, ◌*◌, ◌/◌, ◌%◌, ◌^◌, ◌≤◌, ◌<◌, ◌≡◌, ◌≢◌, refl, ap, ◌∙◌, arith, Bool, true,
  false, ◌&&◌, ◌||◌, if◌then◌else◌, leb, ltb, ◌==◌, all_below, all_below_lem, ==_true, ℕ_discrete,
  Bool-cases, inl, inr, List, set, get_or, get_or-set, length, length-set, bit_and, bit_and-ones,
  u8,
}
use mmd_os.Interrupts.{
  InterruptDescriptor, flags_of, descriptor, set_interrupt_descriptor, set_range, idt_init,
}

-- A gate as the processor takes it apart.
pub record Gate : Type 0 where
  pub address : ℕ
  pub selector : ℕ
  pub kind : ℕ
  pub dpl : ℕ
  pub present : ℕ

abbrev pub gate_of : InterruptDescriptor → Gate
gate_of d = record {
  address = d.address_low + d.address_mid * 2 ^ 16 + d.address_high * 2 ^ 32;
  selector = d.selector;
  kind = d.flags % 16;
  dpl = d.flags / 32 % 4;
  present = d.flags / 128;
}

-- A present interrupt gate into the kernel's code segment.
abbrev pub interrupt_gate : ℕ → ℕ → Gate
interrupt_gate handler dpl = record {
  address = handler;
  selector = 0x28;
  kind = 0b1110;
  dpl = dpl;
  present = 1;
}

flags_ok : ℕ → Bool
flags_ok dpl =
    (u8 (flags_of dpl) % 16 == 0b1110)
    && (u8 (flags_of dpl) / 32 % 4 == dpl)
    && (u8 (flags_of dpl) / 128 == 1)

flags_table : all_below 4 flags_ok ≡ true
unfolding all_below flags_ok
flags_table = refl

flags_lem : (a b c : Bool) → (a && b && c) ≡ true → (a ≡ true) × (b ≡ true) × (c ≡ true)
flags_lem a b c h = ground arith

gate-descriptor :
    (handler dpl : ℕ)
    → handler < 2 ^ 64
    → dpl < 4
    → gate_of (descriptor handler dpl) ≡ interrupt_gate handler dpl
unfolding descriptor flags_ok
gate-descriptor handler dpl h k = λ i. record {
  address = address i;
  selector = 0x28;
  kind = ==_true (bits % 16) 0b1110 checked.0 i;
  dpl = ==_true (bits / 32 % 4) dpl checked.1 i;
  present = ==_true (bits / 128) 1 checked.2 i;
}
  where
    bits : ℕ
    bits = u8 (flags_of dpl)

    checked :
        ((bits % 16 == 0b1110) ≡ true)
        × ((bits / 32 % 4 == dpl) ≡ true)
        × ((bits / 128 == 1) ≡ true)
    checked =
        flags_lem (bits % 16 == 0b1110) (bits / 32 % 4 == dpl) (bits / 128 == 1)
          (all_below_lem 4 _ flags_table dpl k)

    address :
        bit_and handler 0xffff
          + bit_and (handler / 2 ^ 16) 0xffff * 2 ^ 16
          + bit_and (handler / 2 ^ 32) 0xffffffff * 2 ^ 32
        ≡ handler
    address = omega (
      arith,
      bit_and-ones 16 handler,
      bit_and-ones 16 (handler / 2 ^ 16),
      bit_and-ones 32 (handler / 2 ^ 32),
    )

-- The table before and after: the gates from `vector` on, `count` of them, are set.
set_range_lem :
    (count vector dpl : ℕ) (stub : ℕ → ℕ) (idt : List InterruptDescriptor) (v : ℕ)
    (d : InterruptDescriptor)
    → length idt ≡ 256
    → vector + count ≤ 256
    → get_or (set_range count vector dpl stub idt) v d
      ≡ (if leb vector v && ltb v (vector + count) then descriptor (stub v) dpl else get_or idt v d)
unfolding set_range set_interrupt_descriptor
set_range_lem zero vector dpl stub idt v d h k = rw nothing refl
  where
    nothing : (leb vector v && ltb v (vector + 0)) ≡ false
    nothing = ground arith
set_range_lem (suc count) vector dpl stub idt v d h k =
    set_range_lem count (vector + 1) dpl stub (set idt (u8 vector) gate) v d
      (length-set idt (u8 vector) gate ∙ h) (omega arith)
    ∙ ap
        (λ x.
          if leb (vector + 1) v && ltb v (vector + 1 + count) then descriptor (stub v) dpl else x)
        (get_or-set idt (u8 vector) v gate d (omega (arith, h)))
    ∙ elim (ℕ_discrete v vector) [
      | yes e ↦ rw e (rw before (rw here (rw within refl)))
      | no n ↦ rw (elsewhere n) (rw (not_here n) refl)
    ]
  where
    gate : InterruptDescriptor
    gate = descriptor (stub vector) dpl

    before : (leb (vector + 1) vector && ltb vector (vector + 1 + count)) ≡ false
    before = ground arith

    here : (vector == u8 vector) ≡ true
    here = ground arith

    within : (leb vector vector && ltb vector (vector + suc count)) ≡ true
    within = ground arith

    elsewhere :
        v ≢ vector
        → (leb (vector + 1) v && ltb v (vector + 1 + count))
          ≡ (leb vector v && ltb v (vector + suc count))
    elsewhere n = ground arith

    not_here : v ≢ vector → (v == u8 vector) ≡ false
    not_here n = ground arith

length-set_range :
    (count vector dpl : ℕ) (stub : ℕ → ℕ) (idt : List InterruptDescriptor)
    → length (set_range count vector dpl stub idt) ≡ length idt
unfolding set_range set_interrupt_descriptor
length-set_range zero vector dpl stub idt = refl
length-set_range (suc count) vector dpl stub idt =
    length-set_range count (vector + 1) dpl stub
      (set idt (u8 vector) (descriptor (stub vector) dpl))
    ∙ length-set idt (u8 vector) (descriptor (stub vector) dpl)

-- The vectors that `idt_init` fills, and the privilege level that may raise each by software.
abbrev pub is_filled : ℕ → Bool
is_filled v = ltb v 48 || v == 128

abbrev pub level_of : ℕ → ℕ
level_of v = if v == 32 || v == 128 then 3 else 0

by_parts :
    {A : Type 0} (f : ℕ → ℕ → A) (old : A) (v : ℕ)
    → (if v == 128
        then f 128 3
        else if leb 33 v && ltb v 48
        then f v 0
        else if leb 32 v && ltb v 33
        then f v 3
        else if leb 0 v && ltb v 32
        then f v 0
        else old)
      ≡ (if is_filled v then f v (level_of v) else old)
by_parts f old v = elim (ℕ_discrete v 128) [
  | yes e ↦ rw e refl
  | no n ↦ elim (ℕ_discrete v 32) [ yes e ↦ rw e refl | no m ↦ ground arith ]
]

idt_init_lem :
    (stub : ℕ → ℕ) (idt : List InterruptDescriptor) (v : ℕ) (d : InterruptDescriptor)
    → length idt ≡ 256
    → get_or (idt_init stub idt) v d
      ≡ (if is_filled v then descriptor (stub v) (level_of v) else get_or idt v d)
unfolding idt_init set_interrupt_descriptor
idt_init_lem stub idt v d h =
    get_or-set third 128 v (descriptor (stub 128) 3) d (omega (arith, length_third))
    ∙ ap (λ x. if v == 128 then descriptor (stub 128) 3 else x)
        (set_range_lem 15 33 0 stub second v d length_second (omega arith)
          ∙ ap (λ x. if leb 33 v && ltb v 48 then descriptor (stub v) 0 else x)
              (set_range_lem 1 32 3 stub first v d length_first (omega arith)
                ∙ ap (λ x. if leb 32 v && ltb v 33 then descriptor (stub v) 3 else x)
                    (set_range_lem 32 0 0 stub idt v d h (omega arith))))
    ∙ by_parts (λ x dpl. descriptor (stub x) dpl) (get_or idt v d) v
  where
    first : List InterruptDescriptor
    first = set_range 32 0 0 stub idt

    second : List InterruptDescriptor
    second = set_range 1 32 3 stub first

    third : List InterruptDescriptor
    third = set_range 15 33 0 stub second

    length_first : length first ≡ 256
    length_first = length-set_range 32 0 0 stub idt ∙ h

    length_second : length second ≡ 256
    length_second = length-set_range 1 32 3 stub first ∙ length_first

    length_third : length third ≡ 256
    length_third = length-set_range 15 33 0 stub second ∙ length_second

-- When every entry code's address fits 64 bits, `idt_init` leaves, in a table of 256 gates, at each
-- vector below 48 and at 128 a present interrupt gate into the kernel's code segment that leads to
-- that vector's own entry code, with privilege level 3 at 32 (the timer) and at 128 (system calls)
-- and 0 at the others, and leaves every other gate as it was.
pub idt_init-gates :
    (stub : ℕ → ℕ) (idt : List InterruptDescriptor) (v : ℕ) (d : InterruptDescriptor)
    → length idt ≡ 256
    → ((x : ℕ) → stub x < 2 ^ 64)
    → gate_of (get_or (idt_init stub idt) v d)
      ≡ (if is_filled v then interrupt_gate (stub v) (level_of v) else gate_of (get_or idt v d))
unfolding idt_init set_interrupt_descriptor
idt_init-gates stub idt v d h fits =
    ap gate_of (idt_init_lem stub idt v d h) ∙ elim (Bool-cases (is_filled v)) [
      | inl f ↦ rw f (gate-descriptor (stub v) (level_of v) (fits v) level)
      | inr f ↦ rw f refl
    ]
  where
    level : level_of v < 4
    level = ground arith
