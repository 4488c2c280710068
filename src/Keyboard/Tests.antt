-- ===== src/Keyboard/Tests.antt =====
-- Runs of kernel/interrupts/keyboard.c at fixed inputs.
use mmd_os.Base.{ℕ, refl, false, List, [], ◌∷◌, arith}
use mmd_os.Keyboard.{Keyboard}
use mmd_os.Keyboard.Typing.{typed_all, view, AllBytes}
use mmd_os.Keyboard.Refines.{Seen}
use mmd_os.Keyboard.Reads.{interrupts, keyboard_types}

abbrev quiet : Keyboard
quiet = record { buffer = 0; has_char = false; lock = 0; shift = 0; caps_lock = 0 }

-- Shift goes down, the key of `a` goes down and up, and shift goes up.
abbrev capital_a : List ℕ
capital_a = 42 ∷ 30 ∷ 158 ∷ 170 ∷ []

abbrev capital_a_bytes : AllBytes capital_a
capital_a_bytes = (omega arith, (omega arith, (omega arith, (omega arith, tt))))

keyboard_types_example : Seen (typed_all capital_a (view quiet)) (interrupts capital_a quiet)
keyboard_types_example = keyboard_types capital_a quiet capital_a_bytes refl
