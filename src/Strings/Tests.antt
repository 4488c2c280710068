-- ===== src/Strings/Tests.antt =====
-- Runs of the string functions of kernel/lib/util.c at fixed inputs.
use mmd_os.Base.{◌≡◌, inr, arith, true, if◌then◌else◌, ◌==◌, ok}
use mmd_os.Memory.{Memory}
use mmd_os.Strings.{kstrcmp, kstrcpy}
use mmd_os.Strings.Compare.{same, kstrcmp-same}
use mmd_os.Strings.Copy.{kstrcmp-kstrcpy}

-- `ls` at 100 and `lx` at 200.
abbrev two_strings : Memory
two_strings p =
    if p == 100
    then 108
    else if p == 101
    then 115
    else if p == 200
    then 108
    else if p == 201
    then 120
    else 0

kstrcmp-same_example : kstrcmp 5 two_strings 100 200 3 ≡ ok (same two_strings 100 200 3)
kstrcmp-same_example =
    kstrcmp-same 5 two_strings 100 200 3 (omega arith) (omega arith) (omega arith)

kstrcmp-kstrcpy_example : kstrcmp 8 (kstrcpy two_strings 300 100 8) 300 100 8 ≡ ok true
kstrcmp-kstrcpy_example =
    kstrcmp-kstrcpy 8 8 two_strings 300 100 (omega arith) (omega arith) (omega arith)
      (inr (omega arith))
