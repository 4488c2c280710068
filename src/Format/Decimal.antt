-- ===== src/Format/Decimal.antt =====
-- Decimal numbers as kernel/lib/formatter.c writes them.
use mmd_os.Base.{
  ◌⊎◌, inl, inr, ℕ, zero, suc, ◌+◌, ◌-◌, ◌*◌, ◌/◌, ◌%◌, ◌^◌, ◌≤◌, ◌<◌, ◌≡◌, ◌≢◌, refl, ap, sym, ◌∙◌,
  arith, lt→ltb, ne→==, eq→==, ℕ_discrete, u8, ok, >>=-eq-ok,
}
use native.Mathlib.Nat.{pow-succ'}
use mmd_os.Memory.{Memory, write}
use mmd_os.Format.{Out, put, count_digits, low_digits, put_backwards, format_uint}

-- The count of digits returns, and is at most `n` below 10^n.
pub count_digits_lem :
    (n uint : ℕ) → uint < 10 ^ n → (len : ℕ) × (count_digits (suc n) uint ≡ ok len) × (len ≤ n)
unfolding count_digits
count_digits_lem zero uint h = (0, rw (eq→== uint 0 (omega arith)) refl, omega arith)
count_digits_lem (suc n) uint h = elim (ℕ_discrete uint 0) [
  | yes z ↦ (0, rw (eq→== uint 0 z) refl, omega arith)
  | no p ↦
      let (len, counted, short) = count_digits_lem n (uint / 10) (omega (arith, pow-succ' 10 n)) in
      (suc len, rw (ne→== uint 0 p) (rw counted refl), omega arith)
]

-- The number that `n` characters from `p` on spell in decimal.
unfoldable pub decimal : Memory → ℕ → ℕ → ℕ
decimal m p zero = 0
decimal m p (suc n) = 10 * decimal m p n + (m (p + n) - 48)

-- Each of the `n` characters from `p` on is one of '0' to '9'.
abbrev pub AreDigits : Memory → ℕ → ℕ → Type 0
AreDigits m p n = (q : ℕ) → p ≤ q → q < p + n → (48 ≤ m q) × (m q ≤ 57)

decimal-same :
    (n : ℕ) (m m' : Memory) (p : ℕ)
    → ((q : ℕ) → q < p + n → m q ≡ m' q)
    → decimal m p n ≡ decimal m' p n
unfolding decimal
decimal-same zero m m' p same = refl
decimal-same (suc n) m m' p same =
    omega (arith, decimal-same n m m' p (λ q h. same q (omega arith)), same (p + n) (omega arith))

put_room :
    (buffer c : ℕ) (o : Out)
    → o.offset < 1024
    → put buffer c o
      ≡ record o { mem = write o.mem (buffer + o.offset) (u8 c); offset = o.offset + 1 }
put_room buffer c o h = rw (lt→ltb o.offset 1024 h) refl

-- One more digit, written behind those of `uint / 10`.
write-decimal :
    (uint len p : ℕ) (m : Memory)
    → decimal m p len ≡ uint / 10
    → decimal (write m (p + len) (u8 (uint % 10 + 48))) p (suc len) ≡ uint
unfolding decimal
write-decimal uint len p m spelt = omega (arith, last, before, spelt)
  where
    new : Memory
    new = write m (p + len) (u8 (uint % 10 + 48))

    last : new (p + len) ≡ uint % 10 + 48
    last = ground arith

    before : decimal new p len ≡ decimal m p len
    before = decimal-same len new m p λ q h. ground arith

write-AreDigits :
    (uint len p : ℕ) (m : Memory)
    → AreDigits m p len
    → AreDigits (write m (p + len) (u8 (uint % 10 + 48))) p (suc len)
write-AreDigits uint len p m digits q low high = elim (ℕ_discrete q (p + len)) [
  | yes e ↦ rw e (ground arith)
  | no k ↦ ground (arith, k, digits q low (omega arith))
]

-- A round of the count, turned round.
count_digits_more :
    (fuel uint len : ℕ)
    → uint ≢ 0
    → count_digits (suc fuel) uint ≡ ok len
    → (len' : ℕ) × (count_digits fuel (uint / 10) ≡ ok len') × (len ≡ suc len')
unfolding count_digits
count_digits_more fuel uint len p counted =
    let (len', e, f) =
      >>=-eq-ok (count_digits fuel (uint / 10)) (λ len. ok (suc len))
        (rw (ne→== uint 0 p) at counted) in
    (len', e, cc)

count_digits_none : (uint len : ℕ) → ¬ (count_digits 0 uint ≡ ok len)
unfolding count_digits
count_digits_none uint len counted = cc

decimal_none : (m : Memory) (p : ℕ) → decimal m p 0 ≡ 0
unfolding decimal
decimal_none m p = refl

count_digits_end : (fuel uint len : ℕ) → uint ≡ 0 → count_digits (suc fuel) uint ≡ ok len → len ≡ 0
unfolding count_digits
count_digits_end fuel uint len z counted =
    let e : ok 0 ≡ ok len = rw (eq→== uint 0 z) at counted in cc

pow_up : (n uint : ℕ) → 10 ^ (n - 1) ≤ uint / 10 → 10 ^ (suc n - 1) ≤ uint
pow_up zero uint h = omega (arith, h)
pow_up (suc n) uint h =
    let e : 10 ^ (suc n - 1) ≡ 10 ^ n = ap (λ k. 10 ^ k) (omega arith) in
    let f : 10 ^ (suc (suc n) - 1) ≡ 10 ^ suc n = ap (λ k. 10 ^ k) (omega arith) in
    omega (arith, h, e, f, pow-succ' 10 n)

-- A number above 0 has the digits that it needs and no more.
count_digits_least :
    (fuel uint len : ℕ) → uint ≢ 0 → count_digits fuel uint ≡ ok len → 10 ^ (len - 1) ≤ uint
count_digits_least zero uint len p counted = elim (count_digits_none uint len counted) [ ]
count_digits_least (suc fuel) uint len p counted =
    let (len', counted', e) = count_digits_more fuel uint len p counted in
    rw e (elim (ℕ_discrete (uint / 10) 0) [
      | yes z ↦ rw (none_left fuel (uint / 10) len' z counted') (omega arith)
      | no k ↦ pow_up len' uint (omega (arith, count_digits_least fuel (uint / 10) len' k counted'))
    ])
  where
    none_left : (fuel n len : ℕ) → n ≡ 0 → count_digits fuel n ≡ ok len → len ≡ 0
    none_left zero n len z c = elim (count_digits_none n len c) [ ]
    none_left (suc fuel) n len z c = count_digits_end fuel n len z c

-- Digits were written behind `o`: the offset grew by `len`, and they spell `uint` in decimal.
abbrev IsSpelt : ℕ → ℕ → ℕ → Out → Out → Type 0
IsSpelt buffer uint len o o' =
    (o'.offset ≡ o.offset + len)
    × AreDigits o'.mem (buffer + o.offset) len
    × (decimal o'.mem (buffer + o.offset) len ≡ uint)

put-IsSpelt :
    (buffer uint len : ℕ) (o o' : Out)
    → o.offset + suc len ≤ 1024
    → IsSpelt buffer (uint / 10) len o o'
    → IsSpelt buffer uint (suc len) o (put buffer (uint % 10 + 48) o')
put-IsSpelt buffer uint len o o' room (e, digits, spelt) =
    rw (put_room buffer (uint % 10 + 48) o' (omega arith)) (
      omega arith,
      rw next_byte (write-AreDigits uint len (buffer + o.offset) o'.mem digits),
      rw next_byte (write-decimal uint len (buffer + o.offset) o'.mem spelt),
    )
  where
    next_byte : buffer + o'.offset ≡ buffer + o.offset + len
    next_byte = omega (arith, e)

-- The digits of `uint` in the room that is left spell it, and end `len` characters further on.
put_backwards-IsSpelt :
    (fuel uint len buffer : ℕ) (o : Out)
    → count_digits fuel uint ≡ ok len
    → o.offset + len ≤ 1024
    → IsSpelt buffer uint len o (put_backwards buffer (low_digits (λ d. d + 48) len uint) o)
unfolding put_backwards low_digits
put_backwards-IsSpelt zero uint len buffer o counted room =
    elim (count_digits_none uint len counted) [ ]
put_backwards-IsSpelt (suc fuel) uint len buffer o counted room = elim (ℕ_discrete uint 0) [
  | yes z ↦ rw (count_digits_end fuel uint len z counted) (
    omega arith,
    λ q low high. absurd (omega arith),
    decimal_none o.mem (buffer + o.offset) ∙ sym z,
  )
  | no p ↦
      let (len', counted', e) = count_digits_more fuel uint len p counted in
      rw e (
        put-IsSpelt buffer uint len' o _ (omega arith)
          (put_backwards-IsSpelt fuel (uint / 10) len' buffer o counted' (omega arith)))
]

-- With 20 characters of room, `format_uint` writes at most 20 characters of a 64-bit number, at least
-- one; each is one of '0' to '9', and together they spell the number in decimal. There are no more of
-- them than the number needs.
pub format_uint-decimal :
    (uint buffer : ℕ) (o : Out)
    → uint < 2 ^ 64
    → o.offset + 20 ≤ 1024
    → (len : ℕ) × (o' : Out) × (format_uint uint buffer o ≡ ok o')
      × (0 < len)
      × (len ≤ 20)
      × (o'.offset ≡ o.offset + len)
      × AreDigits o'.mem (buffer + o.offset) len
      × (decimal o'.mem (buffer + o.offset) len ≡ uint)
      × ((len ≡ 1) ⊎ (10 ^ (len - 1) ≤ uint))
unfolding format_uint
format_uint-decimal uint buffer o h room = elim (ℕ_discrete uint 0) [
  | yes z ↦
      let (e, digits, spelt) =
        put-IsSpelt buffer 0 0 o o (omega arith) (
          omega arith,
          λ q low high. absurd (omega arith),
          decimal_none o.mem (buffer + o.offset),
        ) in
      rw (eq→== uint 0 z)
        (1, put buffer 48 o, refl, omega arith, omega arith, e, digits, spelt ∙ sym z, inl refl)
  | no p ↦
      let (len, counted, short) = count_digits_lem 20 uint (omega (arith, h)) in
      let (len', counted', e) = count_digits_more 20 uint len p counted in
      let (grown, digits, spelt) =
        put_backwards-IsSpelt 21 uint len buffer o counted (omega (arith, short, room)) in
      rw (ne→== uint 0 p) (
        rw counted (
          len,
          _,
          refl,
          omega (arith, e),
          short,
          grown,
          digits,
          spelt,
          inr (count_digits_least 21 uint len p counted),
        ))
]
