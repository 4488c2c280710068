-- ===== src/Keyboard/Reads.antt =====
-- Runs of kernel/interrupts/keyboard.c: one interrupt for each byte, and then the system call that
-- reads.
use mmd_os.Base.{
  ℕ, ◌+◌, ◌-◌, ◌%◌, ◌^◌, ◌<◌, ◌≡◌, refl, ap, ◌∙◌, inl, inr, Bool, true, false, not, differ, ◌&&◌,
  ◌||◌, if◌then◌else◌, ltb, leb, ◌==◌, ◌!=◌, Bool-cases, ==_true, lt→ltb, agree, all_below,
  all_below_lem, agree→eq, u8, get_or, none, some, List, [], ◌∷◌, Outcome, ok, ◌>>=◌, arith,
}
use mmd_os.Keyboard.{Keyboard, is_silent, keyboard_handler, keyboard_getch, keyboard_getch_syscall}
use mmd_os.Keyboard.Keys.{lower_case, upper_case}
use mmd_os.Keyboard.Typing.{
  Key, silent_key, shift_key, caps_key, char_key, key_of, Typing, typed, typed_byte, typed_all,
  odd_caps, view, AllBytes,
}
use mmd_os.Keyboard.Refines.{Seen, keyboard_handler-Seen}
use mmd_os.Spinlock.{acquire, release, test_and_acq}

abbrev pub interrupts : List ℕ → Keyboard → Outcome Keyboard
interrupts [] k = ok k
interrupts (b ∷ bs) k = keyboard_handler b b k >>= λ k'. interrupts bs k'

-- While the buffer's lock is free, a run of interrupts, one for each byte read from the keyboard,
-- returns with the lock free, and leaves the modifiers and the waiting character as typing those
-- keys does: shift follows the left shift key, caps lock flips at each press, and a character key
-- that goes down replaces what waits by its upper case when just one modifier is on.
pub keyboard_types :
    (bs : List ℕ) (k : Keyboard)
    → AllBytes bs
    → k.lock ≡ 0
    → Seen (typed_all bs (view k)) (interrupts bs k)
keyboard_types [] k h free = record { after = k; returns = refl; free = free; seen = refl }
keyboard_types (b ∷ bs) k h free =
    rw first.returns (rw⁻¹ first.seen (keyboard_types bs first.after h.1 first.free))
  where
    first : Seen (typed_byte b (view k)) (keyboard_handler b b k)
    first = keyboard_handler-Seen b k h.0 free

is_caps : Key → Bool
is_caps caps_key = true
is_caps _ = false

caps_ok : ℕ → Bool
caps_ok b = agree (is_caps (key_of (b % 128)) && ltb b 128) (b == 58)

caps_table : all_below 256 caps_ok ≡ true
unfolding all_below caps_ok is_caps
caps_table = refl

typed_caps :
    (key : Key) (down : Bool) (t : Typing)
    → (typed key down t).capitals ≡ differ (is_caps key && down) t.capitals
unfolding is_caps
typed_caps silent_key down t = refl
typed_caps shift_key down t = refl
typed_caps caps_key true t = refl
typed_caps caps_key false t = refl
typed_caps (char_key code) true t = refl
typed_caps (char_key code) false t = refl

typed_all-capitals :
    (bs : List ℕ) (t : Typing)
    → AllBytes bs
    → (typed_all bs t).capitals ≡ differ (odd_caps bs) t.capitals
unfolding caps_ok
typed_all-capitals [] t h = refl
typed_all-capitals (b ∷ bs) t h =
    typed_all-capitals bs (typed_byte b t) h.1
    ∙ ap (differ (odd_caps bs))
        (typed_caps (key_of (b % 128)) (ltb b 128) t ∙ ap (λ x. differ x t.capitals) caps_eq)
    ∙ differ_assoc (odd_caps bs) (b == 58) t.capitals
  where
    caps_eq : (is_caps (key_of (b % 128)) && ltb b 128) ≡ (b == 58)
    caps_eq = agree→eq _ _ (all_below_lem 256 _ caps_table b h.0)

    differ_assoc : (x y z : Bool) → differ x (differ y z) ≡ differ (differ y x) z
    differ_assoc true true true = refl
    differ_assoc true true false = refl
    differ_assoc true false z = refl
    differ_assoc false true z = refl
    differ_assoc false false z = refl

waiting :
    (has : Bool) (buffer c : ℕ)
    → (if has then some buffer else none) ≡ some c
    → (has ≡ true) × (buffer ≡ c)
waiting true buffer c h = (refl, cc)
waiting false buffer c h = cc

getch_syscall_some :
    (k : Keyboard) (c : ℕ)
    → k.lock ≡ 0
    → (view k).pending ≡ some c
    → keyboard_getch_syscall k ≡ ok (c, record k { lock = 0; buffer = 0; has_char = false })
unfolding keyboard_getch_syscall keyboard_getch acquire release test_and_acq
getch_syscall_some k c free waits = rw w.0 (rw free (ap (λ x. ok (x, emptied)) w.1))
  where
    emptied : Keyboard
    emptied = record k { lock = 0; buffer = 0; has_char = false }

    w : (k.has_char ≡ true) × (k.buffer ≡ c)
    w = waiting k.has_char k.buffer c waits

-- After a run of interrupts, one for each byte read from the keyboard, that started with the lock
-- free and leaves the character `c` waiting, the system call that reads returns `c`, and a second
-- one returns 2^64 - 1 and changes nothing, so that a character is read once.
pub keyboard_reads_once :
    (bs : List ℕ) (k : Keyboard) (c : ℕ)
    → AllBytes bs
    → k.lock ≡ 0
    → (typed_all bs (view k)).pending ≡ some c
    → (after : Keyboard) × (rest : Keyboard) × (interrupts bs k ≡ ok after)
      × (keyboard_getch_syscall after ≡ ok (c, rest))
      × (keyboard_getch_syscall rest ≡ ok (2 ^ 64 - 1, rest))
unfolding keyboard_getch_syscall
keyboard_reads_once bs k c h free waits = (
  run.after,
  record (run.after) { lock = 0; buffer = 0; has_char = false },
  run.returns,
  read,
  refl,
)
  where
    run : Seen (typed_all bs (view k)) (interrupts bs k)
    run = keyboard_types bs k h free

    read :
        keyboard_getch_syscall run.after
        ≡ ok (c, record (run.after) { lock = 0; buffer = 0; has_char = false })
    read = getch_syscall_some run.after c run.free (ap (λ t. t.pending) run.seen ∙ waits)

-- Starting with the lock free, after any run of interrupts, one for each byte read from the
-- keyboard, caps lock is on exactly if it was on at the start and the key (byte 58) went down an
-- even number of times, or it was off and the key went down an odd number of times.
pub keyboard_caps_lock :
    (bs : List ℕ) (k : Keyboard)
    → AllBytes bs
    → k.lock ≡ 0
    → (after : Keyboard) × (interrupts bs k ≡ ok after)
      × ((after.caps_lock != 0) ≡ differ (odd_caps bs) (k.caps_lock != 0))
keyboard_caps_lock bs k h free =
    (run.after, run.returns, ap (λ t. t.capitals) run.seen ∙ typed_all-capitals bs (view k) h)
  where
    run : Seen (typed_all bs (view k)) (interrupts bs k)
    run = keyboard_types bs k h free

is_char : Key → Bool
is_char (char_key code) = true
is_char _ = false

-- A key whose plain character is a letter from a to z.
abbrev pub is_letter : ℕ → Bool
is_letter code = leb 97 (get_or lower_case code 0) && leb (get_or lower_case code 0) 122

letter_ok : ℕ → Bool
letter_ok code =
    not (is_letter code)
    || not (is_silent code)
      && not (code == 42)
      && not (code == 58)
      && (u8 (get_or lower_case code 0) == get_or lower_case code 0)
      && (u8 (get_or upper_case code 0) + 32 == get_or lower_case code 0)

letter_table : all_below 128 letter_ok ≡ true
unfolding all_below letter_ok lower_case upper_case
letter_table = refl

letter_facts :
    (l s e f p q : Bool)
    → l ≡ true
    → (not l || not s && not e && not f && p && q) ≡ true
    → (s ≡ false) × (e ≡ false) × (f ≡ false) × (p ≡ true) × (q ≡ true)
letter_facts false s e f p q k h = cc
letter_facts true true e f p q k h = cc
letter_facts true false true f p q k h = cc
letter_facts true false false true p q k h = cc
letter_facts true false false false false q k h = cc
letter_facts true false false false true false k h = cc
letter_facts true false false false true true k h = (refl, refl, refl, refl, refl)

letter_lem :
    (code : ℕ)
    → code < 128
    → is_letter code ≡ true
    → (key_of code ≡ char_key code)
      × (u8 (get_or lower_case code 0) ≡ get_or lower_case code 0)
      × (u8 (get_or upper_case code 0) + 32 ≡ get_or lower_case code 0)
unfolding letter_ok
letter_lem code below letter =
    let (s, e, f, p, q) =
      letter_facts (is_letter code) (is_silent code) (code == 42) (code == 58) _ _ letter
        (all_below_lem 128 _ letter_table code below) in
    (rw s (rw e (rw f refl)), ==_true _ _ p, ==_true _ _ q)

letter_pending :
    (code : ℕ) (t : Typing)
    → code < 128
    → is_letter code ≡ true
    → (typed_byte code t).pending
      ≡ some (get_or lower_case code 0 - (if differ t.shifted t.capitals then 32 else 0))
letter_pending code t below letter =
    let (key, low, high) = letter_lem code below letter in
    rw (code_lem) (
      rw (lt→ltb code 128 below) (
        rw key (elim (Bool-cases (differ t.shifted t.capitals)) [
          | inl d ↦ rw d (ap some (omega (arith, high)))
          | inr d ↦ rw d (ap some (omega (arith, low)))
        ])))
  where
    code_lem : code % 128 ≡ code
    code_lem = omega arith

-- When the lock is free and a key of a letter from a to z goes down, the handler returns, and the
-- system call that reads then returns the letter: the capital, 32 below in ASCII, when exactly one
-- of shift and caps lock is on, and the small letter otherwise.
pub keyboard_letter :
    (code : ℕ) (k : Keyboard)
    → code < 128
    → is_letter code ≡ true
    → k.lock ≡ 0
    → (after : Keyboard) × (rest : Keyboard) × (keyboard_handler code code k ≡ ok after)
      × (keyboard_getch_syscall after
          ≡ ok (
            get_or lower_case code 0 - (if differ (k.shift != 0) (k.caps_lock != 0) then 32 else 0),
            rest,
          ))
keyboard_letter code k below letter free = (
  pressed.after,
  record (pressed.after) { lock = 0; buffer = 0; has_char = false },
  pressed.returns,
  getch_syscall_some pressed.after _ pressed.free
      (ap (λ t. t.pending) pressed.seen ∙ letter_pending code (view k) below letter),
)
  where
    pressed : Seen (typed_byte code (view k)) (keyboard_handler code code k)
    pressed = keyboard_handler-Seen code k (omega arith) free
