-- ===== src/Ustar/NotOpen.antt =====
-- The searches of ustar_open in kernel/fs/ustar.c: for a free cell, and for a file that is open
-- already.
use mmd_os.Base.{
  ℕ, zero, suc, ◌+◌, ◌≤◌, ◌<◌, ◌≡◌, ◌≢◌, ◌⊎◌, inl, inr, refl, sym, ap, ◌∙◌, arith, false,
  if◌then◌else◌, ltb, ◌!=◌, Bool-cases, ℕ_discrete, none, some, Outcome, ok,
}
use mmd_os.Memory.{Memory, memset}
use mmd_os.Memory.Regions.{memset_lem}
use mmd_os.Strings.{kstrcmp, kstrcpy}
use mmd_os.Strings.Compare.{same, kstrcmp-same}
use mmd_os.Strings.Copy.{kstrcpy-other, kstrcpy-bytes}
use mmd_os.Ustar.{
  Ustar, TarFile, minus_one, filename, filename_prefix, copy_open_name, open_from, free_from,
}
use mmd_os.Ustar.Names.{IsApart, same_differ}

-- Cell `id` is the first that is free.
pub record IsFirstFree (u : Ustar) (id : ℕ) : Type 0 where
  pub below : id < 512
  pub free : u.open_files id ≡ none
  pub taken : (i : ℕ) → i < id → (file : TarFile) × (u.open_files i ≡ some file)

pub free_from-first :
    (n i id : ℕ) (u : Ustar)
    → i ≤ id
    → id < i + n
    → u.open_files id ≡ none
    → ((j : ℕ) → j < id → (file : TarFile) × (u.open_files j ≡ some file))
    → free_from n i u ≡ id
unfolding free_from
free_from-first zero i id u low high free taken = absurd (omega arith)
free_from-first (suc n) i id u low high free taken = elim (ℕ_discrete i id) [
  | yes e ↦ rw e (rw (free, free_from) refl)
  | no k ↦
      rw ((taken i (omega arith)).1, free_from)
        (free_from-first n (i + 1) id u (omega arith) (omega arith) free taken)
]

-- No open file's header has a prefix, and each lies apart from the local array.
abbrev pub NoPrefixes : ℕ → Ustar → Type 0
NoPrefixes tar u =
    (i : ℕ) (file : TarFile)
    → u.open_files i ≡ some file
    → (u.mem (filename_prefix file.header) ≡ 0) × IsApart tar 256 file.header 512

-- Without a prefix the name that is put together is empty.
copy_open_name-empty :
    (tar header : ℕ) (m : Memory)
    → m (filename_prefix header) ≡ 0
    → IsApart tar 256 header 512
    → copy_open_name tar header (memset m tar 0 256) tar ≡ 0
copy_open_name-empty tar header m e apart = rw clear (
    ap (kstrcpy cleared tar (filename_prefix header) 155) (omega arith)
    ∙ kstrcpy-bytes 155 0 0 cleared tar (filename_prefix header) (ground (arith, apart))
        (λ q h k. absurd (omega arith)) (omega arith) (omega arith)
    ∙ ap cleared (omega arith)
    ∙ empty)
  where
    cleared : Memory
    cleared = memset m tar 0 256

    empty : cleared (filename_prefix header) ≡ 0
    empty = ground (arith, memset_lem m tar 0 256 (filename_prefix header), apart, e)

    clear : (cleared (filename_prefix header) != 0) ≡ false
    clear = rw empty refl

copy_open_name-outside :
    (tar header q : ℕ) (m : Memory)
    → (q < tar) ⊎ (tar + 256 ≤ q)
    → copy_open_name tar header (memset m tar 0 256) q ≡ m q
copy_open_name-outside tar header q m out =
    elim (Bool-cases (cleared (filename_prefix header) != 0)) [
      | inl prefixed ↦ rw prefixed (
          kstrcpy-other 100 (kstrcpy cleared tar (filename_prefix header) 155) (tar + 155)
            (filename header) q (ground (arith, out))
          ∙ kstrcpy-other 155 cleared tar (filename_prefix header) q (ground (arith, out))
          ∙ cleared_outside)
      | inr bare ↦ rw bare (
          kstrcpy-other 155 cleared tar (filename_prefix header) q (ground (arith, out))
          ∙ cleared_outside)
    ]
  where
    cleared : Memory
    cleared = memset m tar 0 256

    cleared_outside : cleared q ≡ m q
    cleared_outside = ground (arith, memset_lem m tar 0 256 q, out)

-- From cell `i` on no open file is found, and only the local array is written.
pub record NotOpen (tar : ℕ) (u : Ustar) (r : Outcome (ℕ × Ustar)) : Type 0 where
  pub left : Memory
  pub returns : r ≡ ok (minus_one, record u { mem = left })
  pub kept : (q : ℕ) → (q < tar) ⊎ (tar + 256 ≤ q) → left q ≡ u.mem q

module _ (tar name : ℕ) (name_apart : IsApart tar 256 name 256) where
  not_same : (m : Memory) → m tar ≡ 0 → m name ≢ 0 → kstrcmp 256 m tar name 256 ≡ ok false
  not_same m e k =
      kstrcmp-same 256 m tar name 256 (omega arith) (omega arith) (omega arith)
      ∙ ap ok (same_differ 255 m tar name (λ h. k (sym h ∙ e)))

  NoPrefixes-kept :
      (u : Ustar) (m : Memory)
      → NoPrefixes tar u
      → ((q : ℕ) → (q < tar) ⊎ (tar + 256 ≤ q) → m q ≡ u.mem q)
      → NoPrefixes tar (record u { mem = m })
  NoPrefixes-kept u m bare same i file e =
      let (clear, apart) = bare i file e in
      (same (filename_prefix file.header) (ground (arith, apart)) ∙ clear, apart)

  open_from-none :
      (n i : ℕ) (u : Ustar)
      → u.open_files i ≡ none
      → open_from (suc n) i tar name u ≡ open_from n (i + 1) tar name u
  unfolding open_from
  open_from-none n i u e = rw (e, open_from) refl

  open_from-some :
      (n i : ℕ) (u : Ustar) (file : TarFile)
      → u.open_files i ≡ some file
      → kstrcmp 256 (copy_open_name tar file.header (memset u.mem tar 0 256)) tar name 256
        ≡ ok false
      → open_from (suc n) i tar name u ≡ (
          if ltb 0 file.references
          then open_from n
              (i + 1)
              tar
              name
              (record u { mem = copy_open_name tar file.header (memset u.mem tar 0 256) })
          else open_from n (i + 1) tar name u)
  unfolding open_from
  open_from-some n i u file e c = rw (e, open_from) (rw c refl)

  pub open_from-NotOpen :
      (n i : ℕ) (u : Ustar)
      → NoPrefixes tar u
      → u.mem name ≢ 0
      → NotOpen tar u (open_from n i tar name u)
  unfolding open_from
  open_from-NotOpen zero i u bare named = record {
    left = u.mem;
    returns = refl;
    kept = λ q out. refl;
  }
  open_from-NotOpen (suc n) i u bare named =
      elim (u.open_files i)
          as (λ x. u.open_files i ≡ x → NotOpen tar u (open_from (suc n) i tar name u)) [
            | none ↦ λ e. rw (open_from-none n i u e) (open_from-NotOpen n (i + 1) u bare named)
            | some file ↦ λ e.
                let m = copy_open_name tar file.header (memset u.mem tar 0 256) in
                let (clear, apart) = bare i file e in
                let outside = λ (q : ℕ) (out : (q < tar) ⊎ (tar + 256 ≤ q)).
                  copy_open_name-outside tar file.header q u.mem out in
                let kept_name : m name ≡ u.mem name = outside name (ground (arith, name_apart)) in
                rw
                  (open_from-some n i u file e (
                    not_same m (copy_open_name-empty tar file.header u.mem clear apart)
                      (λ h. named (sym kept_name ∙ h))))
                  (elim (Bool-cases (ltb 0 file.references)) [
                    | inl used ↦ rw used (
                        let rest =
                          open_from-NotOpen n (i + 1) (record u { mem = m })
                            (NoPrefixes-kept u m bare outside) (λ h. named (sym kept_name ∙ h)) in
                        record {
                          left = rest.left;
                          returns = rest.returns;
                          kept = λ q out. rest.kept q out ∙ outside q out;
                        })
                    | inr unused ↦ rw unused (open_from-NotOpen n (i + 1) u bare named)
                  ])
          ]
        refl
