-- ===== src/Strings/Copy.antt =====
-- kstrcpy of kernel/lib/util.c: what it leaves alone, and that the copy compares as equal.
use mmd_os.Base.{
  ℕ, zero, suc, ◌+◌, ◌^◌, ◌≤◌, ◌<◌, ◌≡◌, ◌≢◌, ◌⊎◌, inl, inr, refl, sym, ap, ◌∙◌, arith, true, ne→==,
  eq→==, ℕ_discrete, ok,
}
use mmd_os.Memory.{Memory, write}
use mmd_os.Strings.{kstrcmp, kstrcpy}
use mmd_os.Strings.Compare.{same, kstrcmp-same}

pub kstrcpy-other :
    (size : ℕ) (m : Memory) (dest src q : ℕ)
    → (q < dest) ⊎ (dest + size ≤ q)
    → kstrcpy m dest src size q ≡ m q
unfolding kstrcpy
kstrcpy-other zero m dest src q apart = refl
kstrcpy-other (suc size) m dest src q apart =
    ground (arith, kstrcpy-other size (write m dest (m src)) (dest + 1) (src + 1) q)

-- One round of the loop, when it goes on and when it ends.
copy_on :
    (size : ℕ) (m : Memory) (dest src : ℕ)
    → write m dest (m src) src ≢ 0
    → kstrcpy m dest src (suc size) ≡ kstrcpy (write m dest (m src)) (dest + 1) (src + 1) size
unfolding kstrcpy
copy_on size m dest src k = rw (ne→== (write m dest (m src) src) 0 k) refl

copy_end :
    (size : ℕ) (m : Memory) (dest src : ℕ)
    → write m dest (m src) src ≡ 0
    → kstrcpy m dest src (suc size) ≡ write m dest (m src)
unfolding kstrcpy
copy_end size m dest src z = rw (eq→== (write m dest (m src) src) 0 z) refl

first_byte :
    (size : ℕ) (m : Memory) (dest src : ℕ)
    → (dest + suc size ≤ src) ⊎ (src + suc size ≤ dest)
    → kstrcpy m dest src (suc size) dest ≡ m src
first_byte size m dest src apart = elim (ℕ_discrete (write m dest (m src) src) 0) [
  | yes z ↦ ap (λ f. f dest) (copy_end size m dest src z) ∙ ground arith
  | no k ↦
      ap (λ f. f dest) (copy_on size m dest src k)
      ∙ kstrcpy-other size (write m dest (m src)) (dest + 1) (src + 1) dest (inl (omega arith))
      ∙ ground arith
]

-- Where the source is a string of `n` bytes that fits, its bytes and its zero are copied.
pub kstrcpy-bytes :
    (size n i : ℕ) (m : Memory) (dest src : ℕ)
    → (dest + size ≤ src) ⊎ (src + size ≤ dest)
    → ((q : ℕ) → src ≤ q → q < src + n → m q ≢ 0)
    → n < size
    → i ≤ n
    → kstrcpy m dest src size (dest + i) ≡ m (src + i)
kstrcpy-bytes zero n i m dest src apart letters short h = absurd (omega arith)
kstrcpy-bytes (suc size) n zero m dest src apart letters short h =
    ap (kstrcpy m dest src (suc size)) (omega arith)
    ∙ first_byte size m dest src apart
    ∙ ap m (omega arith)
kstrcpy-bytes (suc size) zero (suc i) m dest src apart letters short h = absurd (omega arith)
kstrcpy-bytes (suc size) (suc n) (suc i) m dest src apart letters short h =
    ap (λ f. f (dest + suc i))
      (copy_on size m dest src (λ z.
        letters src (omega arith) (omega arith) (sym (kept src (omega arith) (omega arith)) ∙ z)))
    ∙ ap (kstrcpy m' (dest + 1) (src + 1) size) (omega arith)
    ∙ kstrcpy-bytes size n i m' (dest + 1) (src + 1) (ground (arith, apart))
        (λ q k l z.
          letters q (omega arith) (omega arith) (sym (kept q (omega arith) (omega arith)) ∙ z))
        (omega arith) (omega arith)
    ∙ kept (src + 1 + i) (omega arith) (omega arith)
    ∙ ap m (omega arith)
  where
    m' : Memory
    m' = write m dest (m src)

    kept : (q : ℕ) → src ≤ q → q < src + suc size → m' q ≡ m q
    kept q k l = ground (arith, apart)

same-zero : (m : Memory) (a b : ℕ) → same m a b 0 ≡ true
unfolding same
same-zero m a b = refl

same-suc :
    (n : ℕ) (m : Memory) (a b : ℕ)
    → m a ≡ m b
    → (m a ≡ 0) ⊎ (same m (a + 1) (b + 1) n ≡ true)
    → same m a b (suc n) ≡ true
unfolding same
same-suc n m a b e rest = ground (arith, e, rest)

-- The copy is the string, up to the size, when the two places do not overlap.
kstrcpy-same :
    (size : ℕ) (m : Memory) (dest src : ℕ)
    → (dest + size ≤ src) ⊎ (src + size ≤ dest)
    → same (kstrcpy m dest src size) dest src size ≡ true
kstrcpy-same zero m dest src apart = same-zero (kstrcpy m dest src 0) dest src
kstrcpy-same (suc size) m dest src apart =
    let m' : Memory = write m dest (m src) in
    let copied : m' dest ≡ m src = rw (eq→== dest dest refl) refl in
    let kept : m' src ≡ m src = rw (ne→== dest src (omega (arith, apart))) refl in
    elim (ℕ_discrete (m' src) 0) [
      | yes z ↦
          rw (copy_end size m dest src z)
            (same-suc size m' dest src (copied ∙ sym kept) (inl (copied ∙ sym kept ∙ z)))
      | no k ↦ rw (copy_on size m dest src k) (
          same-suc size (kstrcpy m' (dest + 1) (src + 1) size) dest src
            (kstrcpy-other size m' (dest + 1) (src + 1) dest (inl (omega arith))
              ∙ copied
              ∙ sym kept
              ∙ sym (kstrcpy-other size m' (dest + 1) (src + 1) src (ground (arith, apart))))
            (inr (kstrcpy-same size m' (dest + 1) (src + 1) (ground (arith, apart)))))
    ]

-- When the two places of `size` bytes do not overlap, `size` is at least 1 and fits 32 bits, what
-- `kstrcpy` copies compares as equal to its source: `kstrcmp` over `size` bytes, with that much fuel,
-- returns true.
pub kstrcmp-kstrcpy :
    (fuel size : ℕ) (m : Memory) (dest src : ℕ)
    → 0 < size
    → size < 2 ^ 32
    → size ≤ fuel
    → (dest + size ≤ src) ⊎ (src + size ≤ dest)
    → kstrcmp fuel (kstrcpy m dest src size) dest src size ≡ ok true
kstrcmp-kstrcpy fuel size m dest src some_bytes small enough apart =
    kstrcmp-same fuel (kstrcpy m dest src size) dest src size some_bytes enough small
    ∙ ap ok (kstrcpy-same size m dest src apart)
