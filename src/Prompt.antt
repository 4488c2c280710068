-- ===== src/Prompt.antt =====
-- The prompt's line editor and the lock on standard input: kernel/terminal/prompt.c. What goes to the
-- terminal is a list of bytes, the latest first. A write past the buffer's end hits other variables,
-- which are not part of the state: the model drops it.
mod Tests
pub mod Stdin
pub mod Editor
pub mod Commands
pub mod Enter
use mmd_os.Base.{
  ℕ, zero, suc, ◌+◌, ◌-◌, ◌^◌, Bool, true, false, if◌then◌else◌, not, ◌&&◌, ◌==◌, List, [], ◌∷◌,
  set, u8, u16,
}

-- The file's variables, and the bytes sent to the terminal.
pub record Prompt : Type 0 where
  pub line_len : ℕ
  pub buffer : List ℕ
  pub buffer_pointer : ℕ
  pub stdin_lock : Bool
  pub locker_id : ℕ
  pub printed : List ℕ

-- The spinlock here is a local variable of each call, free at its start, so it never waits.
unfoldable pub prompt_lockstdin : ℕ → Prompt → ℕ × Prompt
prompt_lockstdin caller_id p =
    if not p.stdin_lock then (1, record p { locker_id = caller_id; stdin_lock = true }) else (0, p)

unfoldable pub prompt_unlockstdin : ℕ → Prompt → Prompt
prompt_unlockstdin caller_id p =
    if p.stdin_lock && p.locker_id == caller_id
    then record p { locker_id = 0; stdin_lock = false }
    else p

unfoldable pub prompt_char_handler : ℕ → Prompt → Prompt
prompt_char_handler c p = if c == 10 then p else record p {
  line_len = u8 (p.line_len + 1);
  buffer = set p.buffer p.buffer_pointer c;
  buffer_pointer = u16 (p.buffer_pointer + 1);
  printed = c ∷ p.printed;
}

unfoldable pub prompt_backspace_handler : Prompt → Prompt
prompt_backspace_handler p =
    if p.line_len == 0
    then p
    else let pointer = u16 (p.buffer_pointer + 2 ^ 16 - 1) in
      record p {
        line_len = p.line_len - 1;
        buffer = set p.buffer pointer 0;
        buffer_pointer = pointer;
        printed = 8 ∷ 32 ∷ 8 ∷ p.printed;
      }

-- `prompt_handler` with the case of the enter key, which runs a command, left to `enter`.
unfoldable pub prompt_handler : (Prompt → Prompt) → ℕ → Prompt → Prompt
prompt_handler enter c p =
    if c == 8
    then prompt_backspace_handler p
    else if c == 10
    then enter p
    else prompt_char_handler c p
