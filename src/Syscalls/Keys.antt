-- ===== src/Syscalls/Keys.antt =====
-- The keyboard end to end: interrupt line 1 (kernel/interrupts/keyboard.c) and then system call 5 of
-- kernel/userland/sys.c.
use mmd_os.Base.{
  ℕ, ◌-◌, ◌<◌, ◌≡◌, refl, ap, ◌∙◌, arith, true, if◌then◌else◌, differ, ◌!=◌, Option, none, some,
  List, length, length-set, get_or, set, get_or-set, lt→ltb, eq→==, ok, ◌>>=◌,
}
use mmd_os.Keyboard.{Keyboard, keyboard_handler, keyboard_getch_syscall}
use mmd_os.Keyboard.Keys.{lower_case}
use mmd_os.Keyboard.Reads.{is_letter, keyboard_letter}
use mmd_os.Interrupts.Lines.{
  Machine, Handler, read_handler, irq_handler, irq_install_handler, irq_handler_dispatches, pic_eoi,
  pic_eoi_lem,
}
use mmd_os.Syscalls.{Call, Calls, syscall_handler, syscall_init, syscall_install_handler, set_rax}

-- `keyboard_handler` as the handler of a line, while the port gives the byte `b`.
abbrev pub keyboard_line : ℕ → Handler Keyboard
keyboard_line b frame c = keyboard_handler b b c.world >>= λ k. ok (frame, record c { world = k })

-- `keyboard_getch_syscall` as the handler of a system call, which looks at no argument.
abbrev pub keyboard_call : Call Keyboard
keyboard_call frame a0 a1 a2 a3 c =
    keyboard_getch_syscall c.world >>= λ r. ok (r.0, record c { world = r.1 })

-- `syscall_init` puts the keyboard's call at number 5.
call_5 :
    {S : Type 0} (calls : Calls S) (table : List (Option (Call S))) (beyond : ℕ → Option (Call S))
    → length table ≡ 32
    → read_handler (syscall_init calls table) beyond 5 ≡ some calls.getch_call
unfolding syscall_init syscall_install_handler
call_5 {S = S} calls table beyond len =
    rw (lt→ltb 5 (length (set t7 7 (some calls.unlockstdin_call))) (omega (arith, full t7 7 _ l7)))
      (get_or-set t7 7 5 (some calls.unlockstdin_call) none (omega (arith, l7))
        ∙ get_or-set t6 6 5 (some calls.lockstdin_call) none (omega (arith, l6))
        ∙ get_or-set t5 5 5 (some calls.getch_call) none (omega (arith, l5)))
  where
    full :
        (xs : List (Option (Call S))) (i : ℕ) (h : Option (Call S))
        → length xs ≡ 32
        → length (set xs i h) ≡ 32
    full xs i h e = length-set xs i h ∙ e

    t3 : List (Option (Call S))
    t3 =
        set (set (set table 0 (some calls.memcpy_call)) 1 (some calls.open_call)) 2
          (some calls.close_call)

    t5 : List (Option (Call S))
    t5 = set (set t3 3 (some calls.read_call)) 4 (some calls.print_call)

    t6 : List (Option (Call S))
    t6 = set t5 5 (some calls.getch_call)

    t7 : List (Option (Call S))
    t7 = set t6 6 (some calls.lockstdin_call)

    l5 : length t5 ≡ 32
    l5 = full _ 4 _ (full t3 3 _ (full _ 2 _ (full _ 1 _ (full table 0 _ len))))

    l6 : length t6 ≡ 32
    l6 = full t5 5 _ l5

    l7 : length t7 ≡ 32
    l7 = full t6 6 _ l6

-- `syscall_handler` with the keyboard's call at number 5.
syscall_5 :
    (calls : Calls Keyboard) (table : List (Option (Call Keyboard)))
    (beyond : ℕ → Option (Call Keyboard)) (frame : ℕ) (c : Machine Keyboard) (char : ℕ)
    (rest : Keyboard)
    → length table ≡ 32
    → calls.getch_call ≡ keyboard_call
    → (c.frames frame).rdi ≡ 5
    → keyboard_getch_syscall c.world ≡ ok (char, rest)
    → syscall_handler (syscall_init calls table) beyond frame c
      ≡ ok (frame, pic_eoi 128 (set_rax frame char (record c { world = rest })))
unfolding syscall_handler
syscall_5 calls table beyond frame c char rest len here number returns = rw found (rw returns refl)
  where
    found : read_handler (syscall_init calls table) beyond (c.frames frame).rdi ≡ some keyboard_call
    found =
        ap (read_handler (syscall_init calls table) beyond) number
        ∙ call_5 calls table beyond len
        ∙ ap some here

-- The register that the caller finds the character in.
syscall_5-rax :
    (calls : Calls Keyboard) (table : List (Option (Call Keyboard)))
    (beyond : ℕ → Option (Call Keyboard)) (frame : ℕ) (c : Machine Keyboard) (char : ℕ)
    (rest : Keyboard)
    → length table ≡ 32
    → calls.getch_call ≡ keyboard_call
    → (c.frames frame).rdi ≡ 5
    → keyboard_getch_syscall c.world ≡ ok (char, rest)
    → (syscall_handler (syscall_init calls table) beyond frame c >>= λ q.
        ok ((q.1.frames frame).rax))
      ≡ ok char
syscall_5-rax calls table beyond frame c char rest len here number returns =
    rw (syscall_5 calls table beyond frame c char rest len here number returns) (
      rw (pic_eoi_lem 128 (set_rax frame char (record c { world = rest })))
        (rw (eq→== frame frame refl) refl))

-- A letter key's scan code arrives on interrupt line 1, with the keyboard's handler installed there,
-- its lock free and the line's number 33 in the frame; then a frame whose rdi is 5 makes a system
-- call, in the tables that `syscall_init` left with `keyboard_getch_syscall`. Both return, and rax of
-- the calling frame holds the letter: the capital when exactly one of shift and caps lock is on.
pub letter_reaches_rax :
    (code : ℕ) (irq_handlers : List (Option (Handler Keyboard)))
    (beyond : ℕ → Option (Handler Keyboard)) (calls : Calls Keyboard)
    (table : List (Option (Call Keyboard))) (beyond' : ℕ → Option (Call Keyboard))
    (frame caller : ℕ) (c : Machine Keyboard)
    → code < 128
    → is_letter code ≡ true
    → length irq_handlers ≡ 16
    → length table ≡ 32
    → calls.getch_call ≡ keyboard_call
    → c.world.lock ≡ 0
    → (c.frames frame).int_number ≡ 33
    → (c.frames caller).rdi ≡ 5
    → (irq_handler (irq_install_handler 1 (keyboard_line code) irq_handlers) beyond frame c >>= λ r.
        syscall_handler (syscall_init calls table) beyond' caller r.1 >>= λ q.
        ok ((q.1.frames caller).rax))
      ≡ ok (
          get_or lower_case code 0
          - (if differ (c.world.shift != 0) (c.world.caps_lock != 0) then 32 else 0))
letter_reaches_rax code irq_handlers beyond calls table beyond' frame caller c small letter len len'
      here free number call =
    let (after, rest, pressed, read) = keyboard_letter code c.world small letter free in
    rw
      (irq_handler_dispatches 1 (keyboard_line code) irq_handlers beyond frame c frame
        (record c { world = after }) (omega arith) len number (rw pressed refl))
      (syscall_5-rax calls table beyond' caller _ _ rest len' here call read)
