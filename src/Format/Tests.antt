-- ===== src/Format/Tests.antt =====
-- Tests of kernel/lib/formatter.c's model.
use mmd_os.Base.{
  ◌⊎◌, ℕ, ◌+◌, ◌^◌, ◌≤◌, ◌<◌, ◌≡◌, refl, arith, if◌then◌else◌, ◌-◌, ltb, [], ◌∷◌, get_or, Outcome,
  ok,
}
use mmd_os.Memory.{Memory}
use mmd_os.Format.{Out, vkprintf, format_uint, format_int, put_backwards, count_digits, low_digits}
use mmd_os.Format.Bounds.{IsOutside}
use mmd_os.Format.Decimal.{decimal, AreDigits, format_uint-decimal}
use mmd_os.Format.Loop.{end, plain, directive, vkprintf_bounds}

-- The string "u%u" at 5000.
abbrev format_memory : Memory
format_memory = λ q. if ltb q 5000 then 0 else get_or (117 ∷ 37 ∷ 117 ∷ []) (q - 5000) 0

abbrev empty : Out
empty = record { mem = λ q. 7; offset = 0; used = 0 }

vkprintf_bounds_example :
    (o : Out) × (vkprintf 3 (λ i. 42) 2000 5000 0 format_memory ≡ ok o)
    × (o.offset ≤ 1024)
    × ((q : ℕ) → IsOutside 0 2000 q → o.mem q ≡ format_memory q)
vkprintf_bounds_example =
    vkprintf_bounds (λ i. 42) 2000 5000 0 (λ i. omega arith) 2 format_memory
      (plain {p = 5000} (omega arith) (omega arith)
        (directive {p = 5001} refl (omega arith) (end {p = 5003} refl)))
      (λ q a b. ground arith)

format_uint-decimal_example :
    (len : ℕ) × (o' : Out) × (format_uint 305 100 empty ≡ ok o')
    × (0 < len)
    × (len ≤ 20)
    × (o'.offset ≡ 0 + len)
    × AreDigits o'.mem (100 + 0) len
    × (decimal o'.mem (100 + 0) len ≡ 305)
    × ((len ≡ 1) ⊎ (10 ^ (len - 1) ≤ 305))
format_uint-decimal_example = format_uint-decimal 305 100 empty (omega arith) (omega arith)

-- The characters that an operation of the formatter wrote at 100.
abbrev written : Outcome Out → ℕ → ℕ
written (ok o) i = o.mem (100 + i)
written r i = 0

-- -12 is printed as the characters of 47 and 46, with no minus sign.
format_int_negative :
    (written (format_int (2 ^ 64 - 12) 100 empty) 0 ≡ 47)
    × (written (format_int (2 ^ 64 - 12) 100 empty) 1 ≡ 46)
unfolding format_int put_backwards count_digits low_digits
format_int_negative = (refl, refl)
