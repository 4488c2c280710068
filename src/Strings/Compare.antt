-- ===== src/Strings/Compare.antt =====
-- kstrcmp of kernel/lib/util.c against the comparison of two strings up to a length.
use mmd_os.Base.{
  ℕ, zero, suc, ◌+◌, ◌-◌, ◌^◌, ◌≤◌, ◌<◌, ◌≡◌, ap, arith, Bool, true, false, if◌then◌else◌, ◌==◌,
  u32, ok,
}
use mmd_os.Memory.{Memory}
use mmd_os.Strings.{kstrcmp}

-- Whether the first `n` bytes agree, or the strings end together before that.
unfoldable pub same : Memory → ℕ → ℕ → ℕ → Bool
same m a b zero = true
same m a b (suc n) =
    let rest = same m (a + 1) (b + 1) n in
    if m a == m b then (if m a == 0 then true else rest) else false

-- For a length of at least 1 that fits 32 bits, and with that much fuel, `kstrcmp` returns, and says
-- true exactly if the strings agree in that many bytes, or end together before that and agree up to
-- there.
pub kstrcmp-same :
    (fuel : ℕ) (m : Memory) (str1 str2 len : ℕ)
    → 0 < len
    → len ≤ fuel
    → len < 2 ^ 32
    → kstrcmp fuel m str1 str2 len ≡ ok (same m str1 str2 len)
unfolding kstrcmp same
kstrcmp-same zero m a b len some_bytes enough small = absurd (omega arith)
kstrcmp-same (suc fuel) m a b zero some_bytes enough small = absurd (omega arith)
kstrcmp-same (suc fuel) m a b (suc zero) some_bytes enough small = ground arith
kstrcmp-same (suc fuel) m a b (suc (suc n)) some_bytes enough small =
    let less : u32 (suc (suc n) + 2 ^ 32 - 1) ≡ suc n = omega arith in
    ground (
      arith,
      ap (kstrcmp fuel m (a + 1) (b + 1)) less,
      kstrcmp-same fuel m (a + 1) (b + 1) (suc n) (omega arith) (omega arith) (omega arith),
    )
