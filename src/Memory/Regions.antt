-- ===== src/Memory/Regions.antt =====
-- What memset and memcpy of kernel/lib/util.c leave in memory.
use mmd_os.Base.{
  ℕ, zero, suc, ◌+◌, ◌-◌, ◌<◌, ◌≤◌, ◌≡◌, ap, arith, ◌&&◌, if◌then◌else◌, ltb, leb, u8, ◌⊎◌,
}
use mmd_os.Memory.{Memory, IsBytes, write, memset, memcpy}

-- memset fills exactly the bytes from `ptr` up to `ptr + size`.
pub memset_lem :
    (m : Memory) (ptr value size q : ℕ)
    → memset m ptr value size q ≡ (if leb ptr q && ltb q (ptr + size) then u8 value else m q)
unfolding memset
memset_lem m ptr value zero q = ground arith
memset_lem m ptr value (suc size) q =
    ground (arith, memset_lem (write m ptr (u8 value)) (ptr + 1) value size q)

pub memset-IsBytes :
    (m : Memory) (ptr value size : ℕ) → IsBytes m → IsBytes (memset m ptr value size)
memset-IsBytes m ptr value size h q = ground (arith, memset_lem m ptr value size q, h q)

-- memcpy between regions that do not overlap copies the source and changes no other byte.
pub memcpy_lem :
    (m : Memory) (dest src size q : ℕ)
    → (dest + size ≤ src) ⊎ (src + size ≤ dest)
    → memcpy m dest src size q
      ≡ (if leb dest q && ltb q (dest + size) then m (src + (q - dest)) else m q)
unfolding memcpy
memcpy_lem m dest src zero q h = ground arith
memcpy_lem m dest src (suc size) q h = ground (
  arith,
  memcpy_lem (write m dest (m src)) (dest + 1) (src + 1) size q,
  λ (h : dest < q). ap m (shift q h),
)
  where
    shift : (q : ℕ) → dest < q → src + 1 + (q - (dest + 1)) ≡ src + (q - dest)
    shift q h = omega arith
