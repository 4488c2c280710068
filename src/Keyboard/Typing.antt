-- ===== src/Keyboard/Typing.antt =====
-- What typing means, apart from kernel/interrupts/keyboard.c's variables: two modifiers and at most
-- one character that waits to be read.
use mmd_os.Base.{
  ℕ, ◌%◌, Bool, true, false, if◌then◌else◌, not, differ, ltb, ◌==◌, ◌!=◌, List, [], ◌∷◌, get_or,
  Option, none, some, u8, ◌<◌,
}
use mmd_os.Keyboard.{Keyboard, is_silent}
use mmd_os.Keyboard.Keys.{lower_case, upper_case}

pub data Key : Type 0 where
  silent_key : Key
  shift_key : Key
  caps_key : Key
  char_key : ℕ → Key

abbrev pub key_of : ℕ → Key
key_of code =
    if is_silent code
    then silent_key
    else if code == 42
    then shift_key
    else if code == 58
    then caps_key
    else char_key code

pub record Typing : Type 0 where
  pub shifted : Bool
  pub capitals : Bool
  pub pending : Option ℕ

abbrev pub char_of : Bool → ℕ → ℕ
char_of capital code = u8 (get_or (if capital then upper_case else lower_case) code 0)

-- A key goes down (`true`) or up.
abbrev pub typed : Key → Bool → Typing → Typing
typed silent_key down t = t
typed shift_key down t = record t { shifted = down }
typed caps_key true t = record t { capitals = not t.capitals }
typed caps_key false t = t
typed (char_key code) true t = record t {
  pending = some (char_of (differ t.shifted t.capitals) code);
}
typed (char_key code) false t = t

-- A byte of the keyboard: the key in the low seven bits, and below 128 when it goes down.
abbrev pub typed_byte : ℕ → Typing → Typing
typed_byte b t = typed (key_of (b % 128)) (ltb b 128) t

abbrev pub typed_all : List ℕ → Typing → Typing
typed_all [] t = t
typed_all (b ∷ bs) t = typed_all bs (typed_byte b t)

-- The number of presses of the caps lock key, up to parity.
abbrev pub odd_caps : List ℕ → Bool
odd_caps [] = false
odd_caps (b ∷ bs) = differ (b == 58) (odd_caps bs)

-- What the variables of the file stand for.
abbrev pub view : Keyboard → Typing
view k = record {
  shifted = k.shift != 0;
  capitals = k.caps_lock != 0;
  pending = if k.has_char then some k.buffer else none;
}

abbrev pub AllBytes : List ℕ → Type 0
AllBytes [] = Unit {0}
AllBytes (b ∷ bs) = (b < 256) × AllBytes bs
