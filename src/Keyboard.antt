-- ===== src/Keyboard.antt =====
-- kernel/interrupts/keyboard.c: the keyboard's interrupt handler, its one-character buffer, and the
-- calls that read it. The saved frame that the handler returns unchanged is left out.
mod Tests
pub mod Keys
pub mod Typing
pub mod Refines
pub mod Reads
use mmd_os.Base.{
  ℕ, ◌-◌, ◌^◌, Bool, true, false, if◌then◌else◌, not, ◌&&◌, ◌||◌, leb, ◌==◌, ◌!=◌, List, bit_and,
  u8, get_or, Outcome, ok, ◌>>=◌,
}
use mmd_os.Spinlock.{acquire, release}
use Keys.{lower_case, upper_case}

-- The file's variables, `keyboard` of type `Key_Event` in the last two.
pub record Keyboard : Type 0 where
  pub buffer : ℕ
  pub has_char : Bool
  pub lock : ℕ
  pub shift : ℕ
  pub caps_lock : ℕ

-- The cases of the `switch` that only break: escape, control, alt and the function keys.
abbrev pub is_silent : ℕ → Bool
is_silent c = c == 1 || c == 29 || c == 56 || leb 59 c && leb c 68 || c == 87 || c == 88

-- The table that the `default` case reads.
abbrev pub table : Keyboard → List ℕ
table k =
    if k.shift != 0 && k.caps_lock != 0
    then lower_case
    else if k.shift != 0 || k.caps_lock != 0
    then upper_case
    else lower_case

unfoldable pub store_char : ℕ → Keyboard → Outcome Keyboard
store_char scancode k = acquire k.lock >>= λ held.
    ok
      (record k { lock = release held; buffer = u8 (get_or (table k) scancode 0); has_char = true })

abbrev pub set_shift : ℕ → Keyboard → Keyboard
set_shift pressed k = record k { shift = if pressed == 0 then 1 else 0 }

abbrev pub set_caps : ℕ → Keyboard → Keyboard
set_caps pressed k =
    if not (k.caps_lock != 0) && pressed == 0
    then record k { caps_lock = 1 }
    else if k.caps_lock != 0 && pressed == 0
    then record k { caps_lock = 0 }
    else k

-- The two bytes that the handler reads from port 0x60 are its arguments.
unfoldable pub keyboard_handler : ℕ → ℕ → Keyboard → Outcome Keyboard
keyboard_handler first second k =
    let scancode = bit_and first 0x7f in
    let pressed = bit_and second 0x80 in
    if is_silent scancode
    then ok k
    else if scancode == 42
    then ok (set_shift pressed k)
    else if scancode == 58
    then ok (set_caps pressed k)
    else if pressed == 0
    then store_char scancode k
    else ok k

unfoldable pub keyboard_getch : Keyboard → Outcome (ℕ × Keyboard)
keyboard_getch k = acquire k.lock >>= λ held.
    ok (k.buffer, record k { lock = release held; buffer = 0; has_char = false })

abbrev pub keyboard_checkch : Keyboard → Bool
keyboard_checkch k = k.has_char

-- The -1 of the source as a `uint64_t`.
unfoldable pub keyboard_getch_syscall : Keyboard → Outcome (ℕ × Keyboard)
keyboard_getch_syscall k = if keyboard_checkch k then keyboard_getch k else ok (2 ^ 64 - 1, k)
