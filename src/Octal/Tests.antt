-- ===== src/Octal/Tests.antt =====
-- Tests of octal numbers.
use mmd_os.Base.{◌≡◌, refl, arith, if◌then◌else◌, ◌==◌, ok}
use mmd_os.Memory.{Memory}
use mmd_os.Octal.{oct_ascii_to_dec, add_digits, kpow, multiply}
use mmd_os.Octal.Digits.{octal, oct_ascii_to_dec-octal}

-- "00000000017" at 100.
abbrev seventeen : Memory
seventeen = λ q. if q == 110 then 55 else if q == 109 then 49 else 48

fifteen : oct_ascii_to_dec 12 seventeen 100 12 ≡ ok 15
unfolding oct_ascii_to_dec add_digits kpow multiply
fifteen = refl

oct_ascii_to_dec-octal_example : oct_ascii_to_dec 12 seventeen 100 12 ≡ ok (octal seventeen 101 10)
oct_ascii_to_dec-octal_example =
    oct_ascii_to_dec-octal 12 8 seventeen 100 (omega arith) (omega arith) (omega arith)
      (λ q k l. ground arith)
