-- ===== src/Interrupts/Lines.antt =====
-- Handlers and their dispatch: the rest of kernel/interrupts/idt.c, with pic_eoi of kernel/cpu/pic.c.
-- Frames are named by their addresses, and a handler works on the whole machine. The handler tables
-- are arguments, since handlers are installed before interrupts are on.
use mmd_os.Base.{
  ℕ, ◌+◌, ◌<◌, ◌≡◌, refl, ap, ◌∙◌, arith, true, if◌then◌else◌, leb, ltb, ◌==◌, Option, none, some,
  List, ◌∷◌, length, set, get_or, get_or-set, length-set, lt→ltb, Bool-cases, inl, inr, u8, sub64,
  Outcome, ok, panicked, ◌>>=◌,
}
use mmd_os.Process.{Context}

-- The saved frames, the writes to ports (the latest first), and all else that handlers work on.
pub record Machine (S : Type 0) : Type 0 where
  pub frames : ℕ → Context
  pub ports : List (ℕ × ℕ)
  pub world : S

abbrev pub outb : {S : Type 0} → ℕ → ℕ → Machine S → Machine S
outb port value c = record c { ports = (port, value) ∷ c.ports }

unfoldable pub pic_eoi : {S : Type 0} → ℕ → Machine S → Machine S
pic_eoi offset c = outb 0x20 0x20 (if leb 40 (u8 offset) then outb 0xA0 0x20 c else c)

abbrev pub Handler : Type 0 → Type 0
Handler S = ℕ → Machine S → Outcome (ℕ × Machine S)

-- An array of handlers, NULL where none is installed; `beyond` is what stands in memory after it.
abbrev pub read_handler : {H : Type 0} → List (Option H) → (ℕ → Option H) → ℕ → Option H
read_handler handlers beyond i =
    if ltb i (length handlers) then get_or handlers i none else beyond i

unfoldable pub irq_install_handler :
    {S : Type 0} → ℕ → Handler S → List (Option (Handler S)) → List (Option (Handler S))
irq_install_handler offset handler irq_handlers = set irq_handlers (u8 offset) (some handler)

unfoldable pub irq_uninstall_handler :
    {S : Type 0} → ℕ → List (Option (Handler S)) → List (Option (Handler S))
irq_uninstall_handler offset irq_handlers = set irq_handlers (u8 offset) none

-- What `irq_handler` does before it acknowledges: only the timer's handler may change the frame.
abbrev pub call_line : {S : Type 0} → Option (Handler S) → ℕ → Machine S → Outcome (ℕ × Machine S)
call_line none frame c = ok (frame, c)
call_line (some handler) frame c =
    handler frame c >>= λ r. ok (if (c.frames frame).int_number == 32 then r.0 else frame, r.1)

unfoldable pub irq_handler :
    {S : Type 0}
    → List (Option (Handler S))
    → (ℕ → Option (Handler S))
    → ℕ
    → Machine S
    → Outcome (ℕ × Machine S)
irq_handler irq_handlers beyond frame c =
    call_line (read_handler irq_handlers beyond (sub64 (c.frames frame).int_number 32)) frame c
    >>= λ r. ok (r.0, pic_eoi ((r.1.frames r.0).int_number) r.1)

abbrev pub call_isr : {S : Type 0} → Option (Handler S) → ℕ → Machine S → Outcome (Machine S)
call_isr none frame c = ok c
call_isr (some handler) frame c = handler frame c >>= λ r. ok r.1

-- The source reads `irq_handlers` here too.
unfoldable pub isr_handler :
    {S : Type 0}
    → List (Option (Handler S))
    → (ℕ → Option (Handler S))
    → ℕ
    → Machine S
    → Outcome (ℕ × Machine S)
isr_handler irq_handlers beyond frame c =
    call_isr (read_handler irq_handlers beyond (c.frames frame).int_number) frame c >>= λ c'.
    if ltb (c'.frames frame).int_number 32 then panicked else ok (frame, c')

pub read_handler-set :
    {H : Type 0} (handlers : List (Option H)) (beyond : ℕ → Option H) (i j : ℕ) (h : Option H)
    → i < length handlers
    → j < length handlers
    → read_handler (set handlers i h) beyond j
      ≡ (if j == i then h else read_handler handlers beyond j)
read_handler-set handlers beyond i j h hi hj =
    rw (length-set handlers i h)
      (rw (lt→ltb j (length handlers) hj) (get_or-set handlers i j h none hi))

pub pic_eoi_lem :
    {S : Type 0} (offset : ℕ) (c : Machine S)
    → pic_eoi offset c ≡ record c {
      ports = (0x20, 0x20) ∷ (if leb 40 (u8 offset) then (0xA0, 0x20) ∷ c.ports else c.ports);
    }
unfolding pic_eoi
pic_eoi_lem offset c = elim (Bool-cases (leb 40 (u8 offset))) [
  | inl b ↦ rw b refl
  | inr b ↦ rw b refl
]

-- When the handler of line `k` below 16 was installed in the table of 16, the frame's number is that
-- of the line, and the handler returns, `irq_handler` returns the handler's frame for the timer
-- (line 0) and the frame it was given for any other line, after one end of interrupt to the first
-- controller, and before it one to the second when the number in the frame that it returns is 40 or
-- more.
pub irq_handler_dispatches :
    {S : Type 0} (k : ℕ) (handler : Handler S) (irq_handlers : List (Option (Handler S)))
    (beyond : ℕ → Option (Handler S)) (frame : ℕ) (c : Machine S) (frame' : ℕ) (c' : Machine S)
    → k < 16
    → length irq_handlers ≡ 16
    → (c.frames frame).int_number ≡ 32 + k
    → handler frame c ≡ ok (frame', c')
    → irq_handler (irq_install_handler k handler irq_handlers) beyond frame c ≡ (
        let next = if k == 0 then frame' else frame in
        let acknowledged =
          if leb 40 (u8 (c'.frames next).int_number) then (0xA0, 0x20) ∷ c'.ports else c'.ports in
        ok (next, record c' { ports = (0x20, 0x20) ∷ acknowledged }))
unfolding irq_handler irq_install_handler
irq_handler_dispatches k handler irq_handlers beyond frame c frame' c' small len number returns =
    rw found
      (rw returns (rw timer (ap (λ x. ok (next, x)) (pic_eoi_lem (c'.frames next).int_number c'))))
  where
    next : ℕ
    next = if k == 0 then frame' else frame

    index : sub64 (c.frames frame).int_number 32 ≡ k
    index = omega (arith, number)

    itself : (k == u8 k) ≡ true
    itself = ground arith

    found :
        read_handler
          (set irq_handlers (u8 k) (some handler))
          beyond
          (sub64 (c.frames frame).int_number 32)
        ≡ some handler
    found =
        ap (read_handler (set irq_handlers (u8 k) (some handler)) beyond) index
        ∙ read_handler-set irq_handlers beyond (u8 k) k (some handler) (omega (arith, len))
            (omega (arith, len))
        ∙ rw itself refl

    timer : ((c.frames frame).int_number == 32) ≡ (k == 0)
    timer = rw number (ground arith)

-- For an exception whose number `k` is below 16, with the table of 16 lines, `isr_handler` panics
-- when the handler installed on line `k` returns and leaves a number below 32 in the frame, and it
-- panics when the handler of that line has been taken out.
pub isr_handler_panics :
    {S : Type 0} (k : ℕ) (handler : Handler S) (irq_handlers : List (Option (Handler S)))
    (beyond : ℕ → Option (Handler S)) (frame : ℕ) (c : Machine S) (frame' : ℕ) (c' : Machine S)
    → k < 16
    → length irq_handlers ≡ 16
    → (c.frames frame).int_number ≡ k
    → handler frame c ≡ ok (frame', c')
    → (c'.frames frame).int_number < 32
    → (isr_handler (irq_install_handler k handler irq_handlers) beyond frame c ≡ panicked)
      × (isr_handler (irq_uninstall_handler k irq_handlers) beyond frame c ≡ panicked)
unfolding isr_handler irq_install_handler irq_uninstall_handler
isr_handler_panics {S = S} k handler irq_handlers beyond frame c frame' c' small len number returns
      low =
    (
      rw (found (some handler)) (rw returns (rw (lt→ltb (c'.frames frame).int_number 32 low) refl)),
      rw (found none) (rw (lt→ltb (c.frames frame).int_number 32 (omega (arith, number))) refl),
    )
  where
    itself : (k == u8 k) ≡ true
    itself = ground arith

    found :
        (h : Option (Handler S))
        → read_handler (set irq_handlers (u8 k) h) beyond (c.frames frame).int_number ≡ h
    found h =
        ap (read_handler (set irq_handlers (u8 k) h) beyond) number
        ∙ read_handler-set irq_handlers beyond (u8 k) k h (omega (arith, len)) (omega (arith, len))
        ∙ rw itself refl
