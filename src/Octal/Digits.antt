-- ===== src/Octal/Digits.antt =====
-- oct_ascii_to_dec of kernel/lib/util.c reads the number that its digits spell.
use mmd_os.Base.{
  ℕ, zero, suc, ◌+◌, ◌-◌, ◌*◌, ◌^◌, ◌≤◌, ◌<◌, ◌≡◌, refl, ap, ap₂, ◌∙◌, arith, ne→==, u16, u64,
  Outcome, ok,
}
use native.Mathlib.Nat.{pow-succ', mul-le-mul_left, one-le-pow}
use mmd_os.Memory.{Memory}
use mmd_os.Octal.{multiply, kpow, digit, add_digit, add_digits, oct_ascii_to_dec}

-- The `n` characters from `p` on are octal digits.
abbrev pub IsOctal : Memory → ℕ → ℕ → Type 0
IsOctal m p n = (q : ℕ) → p ≤ q → q < p + n → (48 ≤ m q) × (m q < 56)

-- The number that they spell, the last digit the lowest.
unfoldable pub octal : Memory → ℕ → ℕ → ℕ
octal m p zero = 0
octal m p (suc n) = 8 * octal m p n + (m (p + n) - 48)

shift_product : (d n : ℕ) → d * 8 ^ suc n ≡ 8 * (d * 8 ^ n)
shift_product d n = rw (pow-succ' 8 n) (grind arith)

octal_none : (m : Memory) (p : ℕ) → octal m p 0 ≡ 0
unfolding octal
octal_none m p = refl

octal-suc : (m : Memory) (p n : ℕ) → octal m p (suc n) ≡ 8 * octal m p n + (m (p + n) - 48)
unfolding octal
octal-suc m p n = refl

-- The first digit counts `8 ^ n`.
octal_front : (m : Memory) (p n : ℕ) → octal m p (suc n) ≡ (m p - 48) * 8 ^ n + octal m (p + 1) n
unfolding octal
octal_front m p zero = omega (arith, ap m here)
  where
    here : p + 0 ≡ p
    here = omega arith
octal_front m p (suc n) = omega (arith, octal_front m p n, shift_product (m p - 48) n, ap m next)
  where
    next : p + 1 + n ≡ p + suc n
    next = omega arith

pub octal-agree :
    (n : ℕ) (m m' : Memory) (p : ℕ)
    → ((q : ℕ) → p ≤ q → q < p + n → m' q ≡ m q)
    → octal m' p n ≡ octal m p n
unfolding octal
octal-agree zero m m' p others = refl
octal-agree (suc n) m m' p others = omega (
  arith,
  octal-agree n m m' p (λ q h k. others q h (omega arith)),
  others (p + n) (omega arith) (omega arith),
)

octal-lt : (m : Memory) (p n : ℕ) → IsOctal m p n → octal m p n < 8 ^ n
unfolding octal
octal-lt m p zero h = omega arith
octal-lt m p (suc n) h = omega (
  arith,
  octal-lt m p n (λ q k l. h q k (omega arith)),
  h (p + n) (omega arith) (omega arith),
  pow-succ' 8 n,
)

multiply_lem : (result y : ℕ) → result * 8 ^ y < 2 ^ 64 → multiply result 8 y ≡ result * 8 ^ y
unfolding multiply
multiply_lem result zero h = omega arith
multiply_lem result (suc y) h =
    rw fits (multiply_lem (result * 8) y (omega (arith, product)) ∙ product)
  where
    product : result * 8 * 8 ^ y ≡ result * 8 ^ suc y
    product = rw (pow-succ' 8 y) (grind arith)

    fits : u64 (result * 8) ≡ result * 8
    fits = omega (arith, product, mul-le-mul_left (result * 8) (one-le-pow y 8 (omega arith)))

kpow_lem : (y : ℕ) → 8 ^ y < 2 ^ 64 → kpow 8 y ≡ 8 ^ y
unfolding kpow
kpow_lem y h = multiply_lem 1 y (omega (arith, h)) ∙ omega arith

-- One digit, where the sum fits.
add_digit_lem :
    (m : Memory) (p size result : ℕ)
    → 48 ≤ m p
    → m p < 56
    → 8 ^ size < 2 ^ 64
    → result + (m p - 48) * 8 ^ size < 2 ^ 64
    → add_digit m p size result ≡ result + (m p - 48) * 8 ^ size
add_digit_lem m p size result low high power fits =
    rw (small, kpow_lem size power) (omega (arith, fits))
  where
    small : digit (m p) ≡ m p - 48
    small = ground arith

abbrev reading : ℕ → ℕ → Outcome (ℕ × ℕ)
reading number result = ok (number, result)

add_digits_lem :
    (fuel size : ℕ) (m : Memory) (p result : ℕ)
    → size < fuel
    → size < 2 ^ 15
    → 8 ^ suc size < 2 ^ 64
    → IsOctal m p (suc size)
    → result + 8 * octal m p (suc size) < 2 ^ 64
    → add_digits fuel m p (suc size) result ≡ ok (p + suc size, result + 8 * octal m p (suc size))
unfolding add_digits
add_digits_lem zero size m p result enough short power digits fits = absurd (omega arith)
add_digits_lem (suc fuel) zero m p result enough short power digits fits =
    rw (add_digit_lem m p 1 result low high power (omega (arith, fits, one)))
      (ap (λ (n : ℕ). ok (p + 1, n)) (omega (arith, one)))
  where
    low : 48 ≤ m p
    low = (digits p (omega arith) (omega arith)).0

    high : m p < 56
    high = (digits p (omega arith) (omega arith)).1

    one : octal m p 1 ≡ m p - 48
    one = omega (arith, octal_front m p 0, octal_none m (p + 1))
add_digits_lem (suc fuel) (suc size) m p result enough short power digits fits = rw less (
    rw
      (add_digit_lem m p (suc (suc size)) result (digits p (omega arith) (omega arith)).0
        (digits p (omega arith) (omega arith)).1 power
        (omega (arith, fits, front, shift_product (m p - 48) (suc size))))
      (rw
        (add_digits_lem fuel size m (p + 1) (result + (m p - 48) * 8 ^ suc (suc size)) (omega arith)
          (omega arith) (omega (arith, pow-succ' 8 (suc size)))
          (λ q k l. digits q (omega arith) (omega arith))
          (omega (arith, fits, front, shift_product (m p - 48) (suc size))))
        (rw (ne→== (suc size) 0 (omega arith))
          (ap₂ reading (omega arith) (omega (arith, front, shift_product (m p - 48) (suc size)))))))
  where
    less : u16 (suc (suc size) + 2 ^ 16 - 1) ≡ suc size
    less = omega arith

    front : octal m p (suc (suc size)) ≡ (m p - 48) * 8 ^ suc size + octal m (p + 1) (suc size)
    front = octal_front m p (suc size)

-- For a size of `n + 4` bytes and with fuel for more than `n` rounds, if the `n + 2` characters from
-- the second one on are octal digits, so few that their number fits 64 bits, `oct_ascii_to_dec`
-- returns the number that they spell.
pub oct_ascii_to_dec-octal :
    (fuel n : ℕ) (m : Memory) (number : ℕ)
    → n < fuel
    → n < 2 ^ 15
    → 8 ^ suc (suc n) < 2 ^ 64
    → IsOctal m (number + 1) (suc (suc n))
    → oct_ascii_to_dec fuel m number (n + 4) ≡ ok (octal m (number + 1) (suc (suc n)))
unfolding oct_ascii_to_dec
oct_ascii_to_dec-octal fuel n m number enough short power digits =
    rw start (rw looped (ap ok (last ∙ omega (arith, split_last))))
  where
    p : ℕ
    p = number + 1

    start : u16 (n + 4 + 2 ^ 16 - 3) ≡ suc n
    start = omega arith

    split_last : octal m p (suc (suc n)) ≡ 8 * octal m p (suc n) + (m (p + suc n) - 48)
    split_last = octal-suc m p (suc n)

    total : octal m p (suc (suc n)) < 2 ^ 64
    total = omega (arith, octal-lt m p (suc (suc n)) digits, power)

    looped : add_digits fuel m p (suc n) 0 ≡ ok (p + suc n, 8 * octal m p (suc n))
    looped =
        add_digits_lem fuel n m p 0 enough short (omega (arith, power, pow-succ' 8 (suc n)))
          (λ q k l. digits q k (omega arith)) (omega (arith, total, split_last))
        ∙ ap (reading (p + suc n)) (omega arith)

    last_digit : (48 ≤ m (p + suc n)) × (m (p + suc n) < 56)
    last_digit = digits (p + suc n) (omega arith) (omega arith)

    last :
        add_digit m (p + suc n) 0 (8 * octal m p (suc n))
        ≡ 8 * octal m p (suc n) + (m (p + suc n) - 48) * 8 ^ 0
    last =
        add_digit_lem m (p + suc n) 0 (8 * octal m p (suc n)) last_digit.0 last_digit.1
          (omega arith) (omega (arith, total, split_last))
