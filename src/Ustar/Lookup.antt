-- ===== src/Ustar/Lookup.antt =====
-- tar_file_lookup of kernel/fs/ustar.c finds the first header with the name that is searched for.
use mmd_os.Base.{
  ℕ, zero, suc, ◌+◌, ◌*◌, ◌/◌, ◌^◌, ◌≤◌, ◌<◌, ◌≡◌, ◌≢◌, ◌⊎◌, inl, inr, refl, ap, ◌∙◌, arith, Bool,
  true, false, if◌then◌else◌, lt→ltb, Bool-cases, List, [], ◌∷◌, u64, length, Outcome, ok,
}
use mmd_os.Memory.{Memory}
use mmd_os.Strings.{kstrcmp}
use mmd_os.Strings.Compare.{same, kstrcmp-same}
use mmd_os.Octal.Digits.{IsOctal, octal, octal-agree, oct_ascii_to_dec-octal}
use mmd_os.Ustar.{
  Ustar, file_size, is_zeroed, copy_name, mend_slashes, round_up, size_of, lookup_from,
  tar_file_lookup,
}
use mmd_os.Ustar.Names.{
  IsName, IsName-agree, IsApart, compared, named_outside, named_bytes, same-agree, all_zero-agree,
}

-- The address of the header after this one: behind the blocks of 512 bytes that hold the file.
abbrev pub after : Memory → ℕ → ℕ
after m header = header + 512 + (octal m (file_size header + 1) 10 + 511) / 512 * 512

round_up-blocks : (size : ℕ) → round_up size ≡ (size + 511) / 512 * 512
round_up-blocks size = ground arith

-- An archive from `p` on with these headers, each apart from the 256 bytes at `tar`; it ends with a
-- block of zeros.
pub data IsArchive (tar : ℕ) (m : Memory) : ℕ → List ℕ → Type 0 where
  finish : {p : ℕ} → is_zeroed m p ≡ true → IsApart tar 256 p 512 → IsArchive tar m p []
  entry :
      {p n : ℕ} {headers : List ℕ}
      → is_zeroed m p ≡ false
      → IsApart tar 256 p 512
      → n < 155
      → IsName m (compared m p) n
      → IsOctal m (file_size p + 1) 10
      → after m p < 2 ^ 64
      → IsArchive tar m (after m p) headers
      → IsArchive tar m p (p ∷ headers)

-- The first of these headers that is compared by the searched name, or NULL.
unfoldable pub first_named : Memory → ℕ → List ℕ → ℕ
first_named m name [] = 0
first_named m name (header ∷ headers) =
    if same m (compared m header) name 256 then header else first_named m name headers

pub size_of-octal :
    (p : ℕ) (m m' : Memory)
    → ((q : ℕ) → p ≤ q → q < p + 512 → m' q ≡ m q)
    → IsOctal m (file_size p + 1) 10
    → size_of m' p ≡ ok (octal m (file_size p + 1) 10)
size_of-octal p m m' others digits =
    oct_ascii_to_dec-octal 12 8 m' (file_size p) (omega arith) (omega arith) (omega arith) digits'
    ∙ ap ok (octal-agree 10 m m' (file_size p + 1) field)
  where
    field : (q : ℕ) → file_size p + 1 ≤ q → q < file_size p + 1 + 10 → m' q ≡ m q
    field q h k = others q (omega arith) (omega arith)

    digits' : IsOctal m' (file_size p + 1) 10
    digits' q h k = rw (field q h k) (digits q h k)

-- The header that is found is one of the archive.
pub first_named-IsOctal :
    (tar name p : ℕ) (m : Memory) (headers : List ℕ)
    → IsArchive tar m p headers
    → first_named m name headers ≢ 0
    → IsApart tar 256 (first_named m name headers) 512
      × IsOctal m (file_size (first_named m name headers) + 1) 10
unfolding first_named
first_named-IsOctal tar name p m [] a k = absurd (k refl)
first_named-IsOctal tar name p m (header ∷ headers) (entry z apart short s digits fits a) k =
    elim (Bool-cases (same m (compared m p) name 256)) [
      | inl found ↦ rw found (apart, digits)
      | inr other ↦ rw other (first_named-IsOctal tar name (after m p) m headers a (rw other at k))
    ]

module _ (tar name : ℕ) (m : Memory) (name_apart : IsApart tar 256 name 256) where
  -- Memory as it was at the start, but for the local array.
  abbrev IsSame : Memory → Type 0
  IsSame m' = (q : ℕ) → (q < tar) ⊎ (tar + 256 ≤ q) → m' q ≡ m q

  named : Memory → ℕ → Memory
  named m' p = mend_slashes 255 tar (copy_name tar p m')

  named-IsSame : (m' : Memory) (p : ℕ) → IsSame m' → IsSame (named m' p)
  unfolding named
  named-IsSame m' p same q out = named_outside tar p q m' out ∙ same q out

  is_zeroed-same :
      (m' : Memory) (p : ℕ) → IsSame m' → IsApart tar 256 p 512 → is_zeroed m' p ≡ is_zeroed m p
  is_zeroed-same m' p same apart = all_zero-agree 512 m m' p λ q h k. same q (ground (arith, apart))

  u64_small : (n : ℕ) → n < 2 ^ 64 → u64 n ≡ n
  u64_small n h = omega arith

  -- One round of the loop, with the fuel left a variable.
  at_zeros :
      (fuel counter p : ℕ) (m' : Memory)
      → counter < 2
      → is_zeroed m' p ≡ true
      → lookup_from (suc fuel) tar name counter p m' ≡ lookup_from fuel tar name (counter + 1) p m'
  unfolding lookup_from
  at_zeros fuel counter p m' h z = rw (lt→ltb counter 2 h, z) refl

  at_end : (fuel p : ℕ) (m' : Memory) → lookup_from (suc fuel) tar name 2 p m' ≡ ok (0, m')
  unfolding lookup_from
  at_end fuel p m' = refl

  at_header :
      (fuel p : ℕ) (m' : Memory) (found : Bool) (size : ℕ)
      → is_zeroed m' p ≡ false
      → kstrcmp 256 (named m' p) tar name 256 ≡ ok found
      → size_of (named m' p) p ≡ ok size
      → lookup_from (suc fuel) tar name 0 p m' ≡ (
          if found
          then ok (p, named m' p)
          else lookup_from fuel tar name 0 (u64 (p + 512 + round_up size)) (named m' p))
  unfolding lookup_from named
  at_header fuel p m' found size z c s = rw z (rw c (rw s refl))

  module _ (p : ℕ) (m' : Memory) (apart : IsApart tar 256 p 512) (same_before : IsSame m') where
    still : (q : ℕ) → p ≤ q → q < p + 512 → m' q ≡ m q
    still q h k = same_before q (ground (arith, apart))

    still_named : (q : ℕ) → p ≤ q → q < p + 512 → named m' p q ≡ m q
    still_named q h k = named-IsSame m' p same_before q (ground (arith, apart))

    compared-same : compared m' p ≡ compared m p
    compared-same = rw (still (p + 345) (omega arith) (omega arith)) refl

    compared_within : (p ≤ compared m p) × (compared m p ≤ p + 345)
    compared_within = ground arith

    IsName-same : (n : ℕ) → n < 155 → IsName m (compared m p) n → IsName m' (compared m' p) n
    IsName-same n short s = rw compared-same (IsName-agree m m' (compared m p) n inside s)
      where
        inside : (q : ℕ) → compared m p ≤ q → q ≤ compared m p + n → m' q ≡ m q
        inside q h k = still q (omega (arith, compared_within)) (omega (arith, compared_within))

    first_bytes :
        (n i : ℕ)
        → n < 155
        → IsName m' (compared m' p) n
        → i ≤ n
        → named m' p (tar + i) ≡ m' (compared m' p + i)
    unfolding named
    first_bytes n i short s h = named_bytes tar p n i m' apart short s h

    kstrcmp-named :
        (n : ℕ)
        → n < 155
        → IsName m (compared m p) n
        → kstrcmp 256 (named m' p) tar name 256 ≡ ok (same m (compared m p) name 256)
    kstrcmp-named n short s =
        kstrcmp-same 256 (named m' p) tar name 256 (omega arith) (omega arith) (omega arith)
        ∙ ap ok (
            same-agree 256 n m (named m' p) (compared m p) tar name copied s.ends searched
              (omega arith))
      where
        copied : (i : ℕ) → i ≤ n → named m' p (tar + i) ≡ m (compared m p + i)
        copied i h =
            first_bytes n i short (IsName-same n short s) h
            ∙ ap (λ c. m' (c + i)) compared-same
            ∙ still (compared m p + i) (omega (arith, compared_within))
                (omega (arith, compared_within))

        searched : (q : ℕ) → name ≤ q → q < name + 256 → named m' p q ≡ m q
        searched q h k = named-IsSame m' p same_before q (ground (arith, name_apart))

  -- What a search from a header on returns, and that it wrote to the local array only.
  pub record Finds (result : ℕ) (r : Outcome (ℕ × Memory)) : Type 0 where
    pub left : Memory
    pub returns : r ≡ ok (result, left)
    pub kept : (q : ℕ) → (q < tar) ⊎ (tar + 256 ≤ q) → left q ≡ m q

  pub lookup_from-Finds :
      (headers : List ℕ) (fuel p : ℕ) (m' : Memory)
      → IsArchive tar m p headers
      → ((q : ℕ) → (q < tar) ⊎ (tar + 256 ≤ q) → m' q ≡ m q)
      → length headers + 3 ≤ fuel
      → Finds (first_named m name headers) (lookup_from fuel tar name 0 p m')
  unfolding first_named
  lookup_from-Finds headers zero p m' a same_before enough = absurd (omega arith)
  lookup_from-Finds [] (suc zero) p m' a same_before enough = absurd (omega arith)
  lookup_from-Finds [] (suc (suc zero)) p m' a same_before enough = absurd (omega arith)
  lookup_from-Finds [] (suc (suc (suc fuel))) p m' (finish z apart) same_before enough =
      let zeros : is_zeroed m' p ≡ true = is_zeroed-same m' p same_before apart ∙ z in
      rw (at_zeros (suc (suc fuel)) 0 p m' (omega arith) zeros) (
        rw (at_zeros (suc fuel) 1 p m' (omega arith) zeros)
          (rw (at_end fuel p m') (record { left = m'; returns = refl; kept = same_before })))
  lookup_from-Finds (header ∷ headers) (suc fuel) p m' (entry z apart short s digits fits a)
        same_before enough =
      rw
        (at_header fuel p m' (same m (compared m p) name 256) (octal m (file_size p + 1) 10)
          (is_zeroed-same m' p same_before apart ∙ z)
          (kstrcmp-named p m' apart same_before _ short s)
          (size_of-octal p m (named m' p) (still_named p m' apart same_before) digits))
        (elim (Bool-cases (same m (compared m p) name 256)) [
          | inl found ↦
              rw found
                (record { left = named m' p; returns = refl; kept = named-IsSame m' p same_before })
          | inr other ↦
              rw (other, round_up-blocks (octal m (file_size p + 1) 10), u64_small (after m p) fits)
                (lookup_from-Finds headers fuel (after m p) (named m' p) a
                  (named-IsSame m' p same_before) (omega arith))
        ])

-- In an archive from its start address on that ends with a block of zeros, whose headers have octal
-- sizes, names of fewer than 155 characters with no backslash, and places below 2^64 and apart from
-- the local array at `tar`, and with fuel for 3 rounds more than its headers, `tar_file_lookup` of a
-- name apart from that array returns the first header that is compared by that name, or NULL if
-- there is none. Its memory differs in the array's 256 bytes at most, and nothing else of the state
-- changes.
pub tar_file_lookup-first_named :
    (tar name : ℕ) (headers : List ℕ) (fuel : ℕ) (u : Ustar)
    → IsApart tar 256 name 256
    → IsArchive tar u.mem u.tar_fs_start_address headers
    → length headers + 3 ≤ fuel
    → (m' : Memory) × (tar_file_lookup fuel tar name u
        ≡ ok (first_named u.mem name headers, record u { mem = m' }))
      × ((q : ℕ) → (q < tar) ⊎ (tar + 256 ≤ q) → m' q ≡ u.mem q)
unfolding tar_file_lookup
tar_file_lookup-first_named tar name headers fuel u name_apart a enough =
    let found =
      lookup_from-Finds tar name u.mem name_apart headers fuel u.tar_fs_start_address u.mem a
        (λ q out. refl) enough in
    (found.left, rw found.returns refl, found.kept)
