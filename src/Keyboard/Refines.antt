-- ===== src/Keyboard/Refines.antt =====
-- kernel/interrupts/keyboard.c's handler against the account of typing.
use mmd_os.Base.{
  ℕ, ◌%◌, ◌<◌, ◌≡◌, refl, ap, inl, inr, Bool, true, differ, ◌&&◌, if◌then◌else◌, ltb, ◌==◌, ◌!=◌,
  Bool-cases, agree, all_below, all_below_lem, bit_and, u8, get_or, some, Outcome, ok, arith,
}
use mmd_os.Keyboard.{Keyboard, is_silent, table, store_char, set_shift, set_caps, keyboard_handler}
use mmd_os.Keyboard.Typing.{
  shift_key, caps_key, char_key, key_of, Typing, char_of, typed, typed_byte, view,
}
use mmd_os.Spinlock.{acquire, release, test_and_acq}

byte_ok : ℕ → Bool
byte_ok b = (bit_and b 0x7f == b % 128) && agree (bit_and b 0x80 == 0) (ltb b 128)

byte_table : all_below 256 byte_ok ≡ true
unfolding all_below byte_ok
byte_table = refl

scancode_lem : (b : ℕ) → b < 256 → bit_and b 0x7f ≡ b % 128
unfolding byte_ok
scancode_lem b h = ground (arith, all_below_lem 256 _ byte_table b h)

pressed_lem : (b : ℕ) → b < 256 → (bit_and b 0x80 == 0) ≡ ltb b 128
unfolding byte_ok
pressed_lem b h = ground (arith, all_below_lem 256 _ byte_table b h)

-- The handler has returned, with the lock free and the variables standing for `t`.
pub record Seen (t : Typing) (r : Outcome Keyboard) : Type 0 where
  pub after : Keyboard
  pub returns : r ≡ ok after
  pub free : after.lock ≡ 0
  pub seen : view after ≡ t

table_lem :
    (code : ℕ) (k : Keyboard)
    → u8 (get_or (table k) code 0) ≡ char_of (differ (k.shift != 0) (k.caps_lock != 0)) code
table_lem code k = elim (Bool-cases (k.shift != 0)) [
  | inl s ↦ elim (Bool-cases (k.caps_lock != 0)) [
    | inl c ↦ rw s (rw c refl)
    | inr c ↦ rw s (rw c refl)
  ]
  | inr s ↦ elim (Bool-cases (k.caps_lock != 0)) [
    | inl c ↦ rw s (rw c refl)
    | inr c ↦ rw s (rw c refl)
  ]
]

store_char-Seen :
    (code : ℕ) (k : Keyboard)
    → k.lock ≡ 0
    → Seen (typed (char_key code) true (view k)) (store_char code k)
unfolding store_char acquire release test_and_acq
store_char-Seen code k h = record {
  after = record k { lock = 0; buffer = u8 (get_or (table k) code 0); has_char = true };
  returns = rw h refl;
  free = refl;
  seen = ap (λ v. record (view k) { pending = some v }) (table_lem code k);
}

set_shift-Seen :
    (pressed : ℕ) (k : Keyboard)
    → k.lock ≡ 0
    → Seen (typed shift_key (pressed == 0) (view k)) (ok (set_shift pressed k))
set_shift-Seen pressed k h = record {
  after = set_shift pressed k;
  returns = refl;
  free = h;
  seen = elim (Bool-cases (pressed == 0)) [ inl p ↦ rw p refl | inr p ↦ rw p refl ];
}

set_caps-Seen :
    (pressed : ℕ) (k : Keyboard)
    → k.lock ≡ 0
    → Seen (typed caps_key (pressed == 0) (view k)) (ok (set_caps pressed k))
set_caps-Seen pressed k h = elim (Bool-cases (pressed == 0)) [
  | inl p ↦ elim (Bool-cases (k.caps_lock != 0)) [
    | inl c ↦ record {
      after = record k { caps_lock = 0 };
      returns = rw p (rw c refl);
      free = h;
      seen = rw p (rw c refl);
    }
    | inr c ↦ record {
      after = record k { caps_lock = 1 };
      returns = rw p (rw c refl);
      free = h;
      seen = rw p (rw c refl);
    }
  ]
  | inr p ↦ elim (Bool-cases (k.caps_lock != 0)) [
    | inl c ↦ record { after = k; returns = rw p (rw c refl); free = h; seen = rw p refl }
    | inr c ↦ record { after = k; returns = rw p (rw c refl); free = h; seen = rw p refl }
  ]
]

pub keyboard_handler-Seen :
    (b : ℕ) (k : Keyboard)
    → b < 256
    → k.lock ≡ 0
    → Seen (typed_byte b (view k)) (keyboard_handler b b k)
unfolding keyboard_handler
keyboard_handler-Seen b k below h =
    rw (scancode_lem b below) (rw⁻¹ (pressed_lem b below) (at (b % 128) (bit_and b 0x80)))
  where
    at :
        (code pressed : ℕ)
        → Seen (typed (key_of code) (pressed == 0) (view k)) (
            if is_silent code
            then ok k
            else if code == 42
            then ok (set_shift pressed k)
            else if code == 58
            then ok (set_caps pressed k)
            else if pressed == 0
            then store_char code k
            else ok k)
    at code pressed = elim (Bool-cases (is_silent code)) [
      | inl s ↦ rw s (record { after = k; returns = refl; free = h; seen = refl })
      | inr s ↦ rw s (elim (Bool-cases (code == 42)) [
        | inl c ↦ rw c (set_shift-Seen pressed k h)
        | inr c ↦ rw c (elim (Bool-cases (code == 58)) [
          | inl d ↦ rw d (set_caps-Seen pressed k h)
          | inr d ↦ rw d (elim (Bool-cases (pressed == 0)) [
            | inl e ↦ rw e (store_char-Seen code k h)
            | inr e ↦ rw e (record { after = k; returns = refl; free = h; seen = refl })
          ])
        ])
      ])
    ]
