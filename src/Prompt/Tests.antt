-- ===== src/Prompt/Tests.antt =====
-- Runs of kernel/terminal/prompt.c at fixed inputs.
use mmd_os.Base.{some, ok, ◌≡◌, refl, ap, arith, false, [], ◌∷◌, replicate}
use mmd_os.Prompt.{Prompt, prompt_lockstdin, prompt_unlockstdin}
use mmd_os.Prompt.Stdin.{lock_by, unlock_by, serve_all, IsHeldBy, stdin_lock_is_kept}
use mmd_os.Prompt.Editor.{Holds, press_all, prompt_edits}
use mmd_os.Prompt.Commands.{gol, prompt_enter_handler}
use mmd_os.Prompt.Enter.{prompt_enter_handler-first_word}

abbrev empty_prompt : Prompt
empty_prompt = record {
  line_len = 0;
  buffer = replicate 1024 0;
  buffer_pointer = 0;
  stdin_lock = false;
  locker_id = 0;
  printed = [];
}

empty-Holds : Holds [] empty_prompt
empty-Holds = record {
  len = refl;
  pointer = refl;
  text = λ room e. ap (λ r. replicate r 0) {x = 1024} (omega (arith, e));
}

abbrev ignore_enter : Prompt → Prompt
ignore_enter p = p

-- `l`, `x`, backspace, `s`.
prompt_edits_example :
    Holds (115 ∷ 108 ∷ []) (press_all ignore_enter (108 ∷ 120 ∷ 8 ∷ 115 ∷ []) empty_prompt)
prompt_edits_example =
    prompt_edits ignore_enter (108 ∷ 120 ∷ 8 ∷ 115 ∷ []) [] empty_prompt
      (λ e. omega arith, (λ e. omega arith, (λ e. omega arith, (λ e. omega arith, tt))))
      (omega arith) empty-Holds

-- Process 3 locks, 4 tries to lock and to unlock, and then 5 locks after 3 unlocks.
stdin_lock_is_kept_example :
    let held = serve_all (lock_by 4 ∷ unlock_by 4 ∷ []) (prompt_lockstdin 3 empty_prompt).1 in
    ((prompt_lockstdin 3 empty_prompt).0 ≡ 1)
    × IsHeldBy 3 held
    × ((prompt_lockstdin 3 held).0 ≡ 0)
    × ((prompt_lockstdin 5 (prompt_unlockstdin 3 held)).0 ≡ 1)
stdin_lock_is_kept_example =
    stdin_lock_is_kept 3 5 (lock_by 4 ∷ unlock_by 4 ∷ []) empty_prompt refl
      (λ e. omega arith, (λ e. omega arith, tt))

-- The line "gol " in the buffer.
abbrev typed_gol : Prompt
typed_gol = record empty_prompt {
  line_len = 4;
  buffer = 103 ∷ 111 ∷ 108 ∷ 32 ∷ replicate 1020 0;
  buffer_pointer = 4;
}

prompt_enter_handler-first_word_example :
    (q : Prompt) × (prompt_enter_handler typed_gol ≡ ok (some gol, q)) × Holds [] q
unfolding mmd_os.Prompt.Enter.first_word mmd_os.Prompt.Enter.starts_with
prompt_enter_handler-first_word_example = prompt_enter_handler-first_word typed_gol
