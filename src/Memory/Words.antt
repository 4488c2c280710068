-- ===== src/Memory/Words.antt =====
-- Little-endian words in byte-addressed memory: what a `uint64_t*` of the kernel reads and writes.
use mmd_os.Base.{ℕ, zero, suc, ◌+◌, ◌*◌, ◌/◌, ◌^◌, ◌≤◌, ◌<◌, ◌≡◌, refl, ◌∙◌, ◌⊎◌, inl, arith, u8}
use mmd_os.Memory.{Memory, write}
use native.Mathlib.Nat.{pow-succ'}

unfoldable pub read_le : ℕ → Memory → ℕ → ℕ
read_le zero m p = 0
read_le (suc n) m p = m p + 256 * read_le n m (p + 1)

unfoldable pub write_le : ℕ → Memory → ℕ → ℕ → Memory
write_le zero m p v = m
write_le (suc n) m p v = write_le n (write m p (u8 v)) (p + 1) (v / 256)

unfoldable pub read64 : Memory → ℕ → ℕ
read64 m p = read_le 8 m p

unfoldable pub write64 : Memory → ℕ → ℕ → Memory
write64 m p v = write_le 8 m p v

pub write_le-other :
    (n : ℕ) (m : Memory) (p v q : ℕ) → (q < p) ⊎ (p + n ≤ q) → write_le n m p v q ≡ m q
unfolding write_le
write_le-other zero m p v q apart = refl
write_le-other (suc n) m p v q apart =
    write_le-other n (write m p (u8 v)) (p + 1) (v / 256) q (ground arith) ∙ ground arith

read_le-same :
    (n : ℕ) (m m' : Memory) (p : ℕ)
    → ((q : ℕ) → p ≤ q → q < p + n → m q ≡ m' q)
    → read_le n m p ≡ read_le n m' p
unfolding read_le
read_le-same zero m m' p same = refl
read_le-same (suc n) m m' p same = omega (
  arith,
  same p (omega arith) (omega arith),
  read_le-same n m m' (p + 1) (λ q h k. same q (omega arith) (omega arith)),
)

read_le-write_le : (n : ℕ) (m : Memory) (p v : ℕ) → v < 256 ^ n → read_le n (write_le n m p v) p ≡ v
unfolding read_le write_le
read_le-write_le zero m p v h = omega arith
read_le-write_le (suc n) m p v h = omega (
  arith,
  write_le-other n (write m p (u8 v)) (p + 1) (v / 256) p (inl (omega arith)),
  first,
  read_le-write_le n (write m p (u8 v)) (p + 1) (v / 256) (omega (arith, pow-succ' 256 n)),
)
  where
    first : write m p (u8 v) p ≡ u8 v
    first = ground arith

pub read64-write64 : (m : Memory) (p v : ℕ) → v < 2 ^ 64 → read64 (write64 m p v) p ≡ v
unfolding read64 write64
read64-write64 m p v h = read_le-write_le 8 m p v (omega arith)

-- A word apart from the one written reads as before.
pub read64-other :
    (m : Memory) (p v q : ℕ) → (q + 8 ≤ p) ⊎ (p + 8 ≤ q) → read64 (write64 m p v) q ≡ read64 m q
unfolding read64 write64
read64-other m p v q apart =
    read_le-same 8 (write_le 8 m p v) m q (λ r h k. write_le-other 8 m p v r (ground arith))
