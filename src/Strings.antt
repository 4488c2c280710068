-- ===== src/Strings.antt =====
-- Strings in memory that end with a zero byte: kstrcpy and kstrcmp of kernel/lib/util.c.
mod Tests
pub mod Compare
pub mod Copy
use mmd_os.Base.{
  ℕ, zero, suc, ◌+◌, ◌-◌, ◌^◌, ◌%◌, Bool, true, false, if◌then◌else◌, ◌&&◌, ◌==◌, ◌!=◌, u32,
  Outcome, ok, out_of_fuel,
}
use mmd_os.Memory.{Memory, write}

-- The loop of `kstrcmp`, on fuel; `len--` wraps at 2^32.
unfoldable pub kstrcmp : ℕ → Memory → ℕ → ℕ → ℕ → Outcome Bool
kstrcmp zero m str1 str2 len = out_of_fuel
kstrcmp (suc fuel) m str1 str2 len =
    let rest = kstrcmp fuel m (str1 + 1) (str2 + 1) (u32 (len + 2 ^ 32 - 1)) in
    if m str1 != 0 && m str2 != 0
    then if m str1 != m str2 then ok false else if len == 1 then ok true else rest
    else ok (m str1 == 0 && m str2 == 0)

-- The loop of `kstrcpy`, by the bytes left; the test for the end reads after the write.
unfoldable pub kstrcpy : Memory → ℕ → ℕ → ℕ → Memory
kstrcpy m dest src zero = m
kstrcpy m dest src (suc size) =
    let m' = write m dest (m src) in
    let rest = kstrcpy m' (dest + 1) (src + 1) size in if m' src == 0 then m' else rest
