-- ===== src/Ustar/Names.antt =====
-- The name of a header as tar_file_lookup of kernel/fs/ustar.c puts it together, and what that
-- writes.
use mmd_os.Base.{
  ℕ, zero, suc, ◌+◌, ◌≤◌, ◌<◌, ◌≡◌, ◌≢◌, ◌⊎◌, inl, inr, refl, sym, ap, ◌∙◌, arith, false,
  if◌then◌else◌, ltb, leb, ◌==◌, ◌!=◌, ◌&&◌, ne→==, dec_lt, Bool-cases,
}
use mmd_os.Memory.{Memory, write}
use mmd_os.Strings.{kstrcpy}
use mmd_os.Strings.Compare.{same}
use mmd_os.Strings.Copy.{kstrcpy-other, kstrcpy-bytes}
use mmd_os.Ustar.{filename, filename_prefix, all_zero, copy_name, mend_slashes}

-- A name of `n` characters with no backslash among them, and a zero.
pub record IsName (m : Memory) (p n : ℕ) : Type 0 where
  pub letters : (q : ℕ) → p ≤ q → q < p + n → m q ≢ 0
  pub no_backslash : (q : ℕ) → p ≤ q → q < p + n → m q ≢ 92
  pub ends : m (p + n) ≡ 0

IsName-plain : (m : Memory) (p n q : ℕ) → IsName m p n → q ≤ n → m (p + q) ≢ 92
IsName-plain m p n q s h e = elim (dec_lt q n) [
  | yes k ↦ s.no_backslash (p + q) (omega arith) (omega arith) e
  | no k ↦ let last : m (p + q) ≡ m (p + n) = ap m (omega arith) in omega (arith, last, s.ends, e)
]

pub IsName-agree :
    (m m' : Memory) (p n : ℕ)
    → ((q : ℕ) → p ≤ q → q ≤ p + n → m' q ≡ m q)
    → IsName m p n
    → IsName m' p n
IsName-agree m m' p n others s = record {
  letters = λ q h k z. s.letters q h k (sym (others q h (omega arith)) ∙ z);
  no_backslash = λ q h k z. s.no_backslash q h k (sym (others q h (omega arith)) ∙ z);
  ends = others (p + n) (omega arith) (omega arith) ∙ s.ends;
}

-- Two regions with no byte in common.
abbrev pub IsApart : ℕ → ℕ → ℕ → ℕ → Type 0
IsApart p n q k = (p + n ≤ q) ⊎ (q + k ≤ p)

mend_slashes_lem :
    (n p : ℕ) (m : Memory) (q : ℕ)
    → mend_slashes n p m q ≡ (if leb p q && ltb q (p + n) && m q == 92 then 47 else m q)
unfolding mend_slashes
mend_slashes_lem zero p m q = ground arith
mend_slashes_lem (suc n) p m q =
    ground (arith, mend_slashes_lem n (p + 1) (if m p == 92 then write m p 47 else m) q)

-- Both ways to put the name together write to the local array only.
pub named_outside :
    (tar header q : ℕ) (m : Memory)
    → (q < tar) ⊎ (tar + 256 ≤ q)
    → mend_slashes 255 tar (copy_name tar header m) q ≡ m q
named_outside tar header q m out = elim (Bool-cases (m (filename_prefix header) != 0)) [
  | inl prefixed ↦ rw prefixed (
      ground
        (arith, mend_slashes_lem 255 tar (kstrcpy first (tar + 155) (filename header) 100) q, out)
      ∙ kstrcpy-other 100 first (tar + 155) (filename header) q (ground (arith, out))
      ∙ kstrcpy-other 155 m tar (filename_prefix header) q (ground (arith, out)))
  | inr bare ↦ rw bare (
      ground (arith, mend_slashes_lem 255 tar (kstrcpy m tar (filename header) 155) q, out)
      ∙ kstrcpy-other 155 m tar (filename header) q (ground (arith, out)))
]
  where
    first : Memory
    first = kstrcpy m tar (filename_prefix header) 155

-- The string that a header is compared by: its prefix alone where it has one.
abbrev pub compared : Memory → ℕ → ℕ
compared m header =
    if m (filename_prefix header) != 0 then filename_prefix header else filename header

-- What the local array starts with.
pub named_bytes :
    (tar header n q : ℕ) (m : Memory)
    → IsApart tar 256 header 512
    → n < 155
    → IsName m (compared m header) n
    → q ≤ n
    → mend_slashes 255 tar (copy_name tar header m) (tar + q) ≡ m (compared m header + q)
named_bytes tar header n q m apart short s h = elim (Bool-cases (m (filename_prefix header) != 0)) [
  | inl prefixed ↦ rw prefixed (
      mended (kstrcpy first (tar + 155) (filename header) 100) (filename_prefix header)
        (rw prefixed at s)
        (kstrcpy-other 100 first (tar + 155) (filename header) (tar + q) (inl (omega arith))
          ∙ kstrcpy-bytes 155 n q m tar (filename_prefix header) (ground (arith, apart))
              (rw prefixed at s).letters short h))
  | inr bare ↦ rw bare (
      mended (kstrcpy m tar (filename header) 155) (filename header) (rw bare at s) (
        kstrcpy-bytes 155 n q m tar (filename header) (ground (arith, apart)) (rw bare at s).letters
          short h))
]
  where
    first : Memory
    first = kstrcpy m tar (filename_prefix header) 155

    mended :
        (m' : Memory) (p : ℕ)
        → IsName m p n
        → m' (tar + q) ≡ m (p + q)
        → mend_slashes 255 tar m' (tar + q) ≡ m (p + q)
    mended m' p s e =
        ground (arith, mend_slashes_lem 255 tar m' (tar + q), e, IsName-plain m p n q s h)

pub same_differ : (n : ℕ) (m : Memory) (a b : ℕ) → m a ≢ m b → same m a b (suc n) ≡ false
unfolding same
same_differ n m a b k = rw (ne→== (m a) (m b) k) refl

pub same-agree :
    (n k : ℕ) (m m' : Memory) (a a' b : ℕ)
    → ((i : ℕ) → i ≤ k → m' (a' + i) ≡ m (a + i))
    → m (a + k) ≡ 0
    → ((q : ℕ) → b ≤ q → q < b + n → m' q ≡ m q)
    → k < n
    → same m' a' b n ≡ same m a b n
unfolding same
same-agree zero k m m' a a' b agrees ends others h = refl
same-agree (suc n) zero m m' a a' b agrees ends others h =
    ground (arith, first, others b (omega arith) (omega arith), ended)
  where
    first : m' a' ≡ m a
    first = ap m' (omega arith) ∙ agrees 0 (omega arith) ∙ ap m (omega arith)

    ended : m a ≡ 0
    ended = ap m (omega arith) ∙ ends
same-agree (suc n) (suc k) m m' a a' b agrees ends others h = ground (
  arith,
  first,
  others b (omega arith) (omega arith),
  same-agree n k m m' (a + 1) (a' + 1) (b + 1) next (ap m (omega arith) ∙ ends)
      (λ q k l. others q (omega arith) (omega arith)) (omega arith),
)
  where
    first : m' a' ≡ m a
    first = ap m' (omega arith) ∙ agrees 0 (omega arith) ∙ ap m (omega arith)

    next : (i : ℕ) → i ≤ k → m' (a' + 1 + i) ≡ m (a + 1 + i)
    next i l = ap m' (omega arith) ∙ agrees (suc i) (omega arith) ∙ ap m (omega arith)

pub all_zero-agree :
    (n : ℕ) (m m' : Memory) (p : ℕ)
    → ((q : ℕ) → p ≤ q → q < p + n → m' q ≡ m q)
    → all_zero n m' p ≡ all_zero n m p
unfolding all_zero
all_zero-agree zero m m' p others = refl
all_zero-agree (suc n) m m' p others = ground (
  arith,
  others p (omega arith) (omega arith),
  all_zero-agree n m m' (p + 1) (λ q h k. others q (omega arith) (omega arith)),
)
