-- ===== src/Base/Bits.antt =====
-- `&` and `|` of C on unsigned numbers, field by field: they act on the high and on the low digits
-- apart.
use Prim.Native.Nat.{
  ℕ, zero, suc, ◌+◌, ◌-◌, ◌*◌, ◌/◌, ◌%◌, ◌^◌, ◌≤◌, ◌<◌, min, max, digits, bit_and, bit_or,
  bit_and-bitwise, bit_or-bitwise,
}
use mathlib.Core.Path.{◌≡◌, refl, sym, ap, ap₂, ◌∙◌}
use native.Mathlib.Nat.{pow-suc, one-le-pow}
use native.Mathlib.Omega.{arith}

module _ (rest : ℕ → ℕ) (op : ℕ → ℕ → ℕ) where
  -- Any count of digits that covers the first number gives the same result.
  same_digits :
      (more less a b : ℕ)
      → a ≤ less
      → less ≤ more
      → digits rest op more a b ≡ digits rest op less a b
  same_digits zero zero a b p q = refl
  same_digits zero (suc less) a b p q = absurd (omega arith)
  same_digits (suc more) zero zero b p q = refl
  same_digits (suc more) zero (suc a) b p q = absurd (omega arith)
  same_digits (suc more) (suc less) zero b p q = refl
  same_digits (suc more) (suc less) (suc a) b p q =
      ap (λ high. high * 2 + op (suc a % 2) (b % 2))
        (same_digits more less (suc a / 2) (b / 2) (omega arith) (omega arith))

and_digit : (a b : ℕ) → bit_and a b ≡ bit_and (a / 2) (b / 2) * 2 + min (a % 2) (b % 2)
and_digit zero b = omega (arith, bit_and-bitwise 0 b, bit_and-bitwise 0 (b / 2))
and_digit (suc a) b = omega (
  arith,
  same_digits (λ _. 0) min a (suc a / 2) (suc a / 2) (b / 2) (omega arith) (omega arith),
  bit_and-bitwise (suc a / 2) (b / 2),
  bit_and-bitwise (suc a) b,
)

or_digit : (a b : ℕ) → bit_or a b ≡ bit_or (a / 2) (b / 2) * 2 + max (a % 2) (b % 2)
or_digit zero b = omega (arith, bit_or-bitwise 0 b, bit_or-bitwise 0 (b / 2))
or_digit (suc a) b = omega (
  arith,
  same_digits (λ d. d) max a (suc a / 2) (suc a / 2) (b / 2) (omega arith) (omega arith),
  bit_or-bitwise (suc a / 2) (b / 2),
  bit_or-bitwise (suc a) b,
)

-- The halves of a number with the high field `q` above `k + 1` low digits.
half : (k q r : ℕ) → (q * 2 ^ suc k + r) / 2 ≡ q * 2 ^ k + r / 2
half k q r = omega (arith, ap (λ (t : ℕ). q * t) (pow-suc 2 k))

low : (k q r : ℕ) → (q * 2 ^ suc k + r) % 2 ≡ r % 2
low k q r = omega (arith, ap (λ (t : ℕ). q * t) (pow-suc 2 k))

is_zero : (r : ℕ) → r < 2 ^ 0 → r ≡ 0
is_zero r h = omega arith

low_zero : (q r : ℕ) → r < 2 ^ 0 → q * 2 ^ 0 + r ≡ q
low_zero q r h = omega arith

and_zero : bit_and 0 0 ≡ 0
and_zero = refl

or_zero : bit_or 0 0 ≡ 0
or_zero = refl

pub and_fields :
    (k q r p s : ℕ)
    → r < 2 ^ k
    → s < 2 ^ k
    → bit_and (q * 2 ^ k + r) (p * 2 ^ k + s) ≡ bit_and q p * 2 ^ k + bit_and r s
and_fields zero q r p s hr hs = omega (
  arith,
  ap₂ bit_and (low_zero q r hr) (low_zero p s hs),
  ap₂ bit_and (is_zero r hr) (is_zero s hs),
  and_zero,
)
and_fields (suc k) q r p s hr hs = omega (
  arith,
  and_digit (q * 2 ^ suc k + r) (p * 2 ^ suc k + s),
  ap₂ bit_and (half k q r) (half k p s),
  low k q r,
  low k p s,
  and_fields k q (r / 2) p (s / 2) (omega (arith, pow-suc 2 k)) (omega (arith, pow-suc 2 k)),
  and_digit r s,
  ap (λ (t : ℕ). bit_and q p * t) (pow-suc 2 k),
)

pub or_fields :
    (k q r p s : ℕ)
    → r < 2 ^ k
    → s < 2 ^ k
    → bit_or (q * 2 ^ k + r) (p * 2 ^ k + s) ≡ bit_or q p * 2 ^ k + bit_or r s
or_fields zero q r p s hr hs = omega (
  arith,
  ap₂ bit_or (low_zero q r hr) (low_zero p s hs),
  ap₂ bit_or (is_zero r hr) (is_zero s hs),
  or_zero,
)
or_fields (suc k) q r p s hr hs = omega (
  arith,
  or_digit (q * 2 ^ suc k + r) (p * 2 ^ suc k + s),
  ap₂ bit_or (half k q r) (half k p s),
  low k q r,
  low k p s,
  or_fields k q (r / 2) p (s / 2) (omega (arith, pow-suc 2 k)) (omega (arith, pow-suc 2 k)),
  or_digit r s,
  ap (λ (t : ℕ). bit_or q p * t) (pow-suc 2 k),
)

and-zero : (bound a : ℕ) → a ≤ bound → bit_and a 0 ≡ 0
and-zero bound zero h = refl
and-zero zero (suc a) h = absurd (omega arith)
and-zero (suc bound) (suc a) h =
    omega (arith, and_digit (suc a) 0, and-zero bound (suc a / 2) (omega arith))

or-zero : (bound a : ℕ) → a ≤ bound → bit_or a 0 ≡ a
or-zero bound zero h = refl
or-zero zero (suc a) h = absurd (omega arith)
or-zero (suc bound) (suc a) h =
    omega (arith, or_digit (suc a) 0, or-zero bound (suc a / 2) (omega arith))

pub bit_and-zero : (a : ℕ) → bit_and a 0 ≡ 0
bit_and-zero a = and-zero a a (omega arith)

pub bit_or-zero : (a : ℕ) → bit_or a 0 ≡ a
bit_or-zero a = or-zero a a (omega arith)

-- A number within `k` digits, under the mask of `k` ones.
ones_keep : (k r : ℕ) → r < 2 ^ k → bit_and r (2 ^ k - 1) ≡ r
ones_keep zero r h = omega (arith, bit_and-zero r)
ones_keep (suc k) r h = omega (
  arith,
  and_digit r (2 ^ suc k - 1),
  ap (bit_and (r / 2)) (halved),
  pow-suc 2 k,
  one-le-pow k 2,
  ones_keep k (r / 2) (omega (arith, pow-suc 2 k)),
)
  where
    halved : (2 ^ suc k - 1) / 2 ≡ 2 ^ k - 1
    halved = omega (arith, pow-suc 2 k, one-le-pow k 2)

pub split : (k a : ℕ) → a / 2 ^ k * 2 ^ k + a % 2 ^ k ≡ a
split k a = omega (arith, one-le-pow k 2)

pub mod-fits : (k a : ℕ) → a % 2 ^ k < 2 ^ k
mod-fits k a = omega (arith, one-le-pow k 2)

-- The mask of `k` ones keeps the low `k` digits.
pub bit_and-ones : (k a : ℕ) → bit_and a (2 ^ k - 1) ≡ a % 2 ^ k
bit_and-ones k a =
    ap₂ bit_and (sym (split k a)) padded
    ∙ and_fields k (a / 2 ^ k) (a % 2 ^ k) 0 (2 ^ k - 1) (mod-fits k a)
        (omega (arith, one-le-pow k 2))
    ∙ omega (
      arith,
      ap (λ (t : ℕ). t * 2 ^ k) (bit_and-zero (a / 2 ^ k)),
      ones_keep k (a % 2 ^ k) (mod-fits k a),
    )
  where
    padded : 2 ^ k - 1 ≡ 0 * 2 ^ k + (2 ^ k - 1)
    padded = omega arith

-- The mask of `w` ones, `k` digits up.
pub bit_and-field : (k w a : ℕ) → bit_and a ((2 ^ w - 1) * 2 ^ k) ≡ a / 2 ^ k % 2 ^ w * 2 ^ k
bit_and-field k w a =
    ap₂ bit_and (sym (split k a)) (padded)
    ∙ and_fields k (a / 2 ^ k) (a % 2 ^ k) (2 ^ w - 1) 0 (mod-fits k a)
        (omega (arith, one-le-pow k 2))
    ∙ omega
        (arith, ap (λ (t : ℕ). t * 2 ^ k) (bit_and-ones w (a / 2 ^ k)), bit_and-zero (a % 2 ^ k))
  where
    padded : (2 ^ w - 1) * 2 ^ k ≡ (2 ^ w - 1) * 2 ^ k + 0
    padded = omega arith

-- Numbers without digits in common add up.
pub bit_or-low : (k q r : ℕ) → r < 2 ^ k → bit_or (q * 2 ^ k) r ≡ q * 2 ^ k + r
bit_or-low k q r h =
    ap₂ bit_or padded (padded_low)
    ∙ or_fields k q 0 0 r (omega (arith, one-le-pow k 2)) h
    ∙ omega (arith, ap (λ (t : ℕ). t * 2 ^ k) (bit_or-zero q), zero_or)
  where
    padded : q * 2 ^ k ≡ q * 2 ^ k + 0
    padded = omega arith

    padded_low : r ≡ 0 * 2 ^ k + r
    padded_low = omega arith

    zero_or : bit_or 0 r ≡ r
    zero_or = bit_or-bitwise 0 r
