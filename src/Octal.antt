-- ===== src/Octal.antt =====
-- Octal numbers in text: kpow and oct_ascii_to_dec of kernel/lib/util.c.
mod Tests
pub mod Digits
use mmd_os.Base.{
  ℕ, zero, suc, ◌+◌, ◌-◌, ◌*◌, ◌^◌, ◌<◌, Bool, if◌then◌else◌, ltb, ◌==◌, u16, u64, Outcome, ok,
  out_of_fuel, ◌>>=◌,
}
use mmd_os.Memory.{Memory}

-- `while (y) { result *= x; y--; }`
unfoldable pub multiply : ℕ → ℕ → ℕ → ℕ
multiply result x zero = result
multiply result x (suc y) = multiply (u64 (result * x)) x y

unfoldable pub kpow : ℕ → ℕ → ℕ
kpow x y = multiply 1 x y

-- `(uint64_t) (*number - '0')`, where a `char` from 128 on is negative.
abbrev pub digit : ℕ → ℕ
digit c = u64 (if ltb c 128 then c + 2 ^ 64 - 48 else c + 2 ^ 64 - 304)

abbrev pub add_digit : Memory → ℕ → ℕ → ℕ → ℕ
add_digit m number size result = u64 (result + u64 (digit (m number) * kpow 8 size))

-- The `do` loop, on fuel; `size--` wraps at 2^16. The result is the pointer and the sum.
unfoldable pub add_digits : ℕ → Memory → ℕ → ℕ → ℕ → Outcome (ℕ × ℕ)
add_digits zero m number size result = out_of_fuel
add_digits (suc fuel) m number size result =
    let size' = u16 (size + 2 ^ 16 - 1) in
    let rest = add_digits fuel m (number + 1) size' (add_digit m number size result) in
    if size' == 0 then ok (number + 1, add_digit m number size result) else rest

unfoldable pub oct_ascii_to_dec : ℕ → Memory → ℕ → ℕ → Outcome ℕ
oct_ascii_to_dec fuel m number size =
    add_digits fuel m (number + 1) (u16 (size + 2 ^ 16 - 3)) 0 >>= λ (number', result).
    ok (add_digit m number' 0 result)
