-- ===== src/Memory.antt =====
-- Byte-addressed memory, and the loops of kernel/lib/util.c over it (memset, memcpy).
pub mod Regions
pub mod Words
pub mod Bytes
use mmd_os.Base.{ℕ, zero, suc, List, [], ◌∷◌, ◌+◌, ◌<◌, Bool, if◌then◌else◌, ◌==◌, u8}

abbrev pub Memory : Type 0
Memory = ℕ → ℕ

abbrev pub IsBytes : Memory → Type 0
IsBytes m = (p : ℕ) → m p < 256

abbrev pub write : Memory → ℕ → ℕ → Memory
write m p v q = if p == q then v else m q

-- `for (; size > 0; size--) { *tmp = value; tmp++; }`
unfoldable pub memset : Memory → ℕ → ℕ → ℕ → Memory
memset m ptr value zero = m
memset m ptr value (suc size) = memset (write m ptr (u8 value)) (ptr + 1) value size

unfoldable pub memcpy : Memory → ℕ → ℕ → ℕ → Memory
memcpy m dest src zero = m
memcpy m dest src (suc size) = memcpy (write m dest (m src)) (dest + 1) (src + 1) size

-- `n` bytes of memory.
unfoldable pub bytes : Memory → ℕ → ℕ → List ℕ
bytes m p zero = []
bytes m p (suc n) = m p ∷ bytes m (p + 1) n
