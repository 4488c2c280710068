-- ===== src/Ustar/Tests.antt =====
-- Tests of the archive's model.
use mmd_os.Base.{
  ℕ, ◌+◌, ◌≤◌, ◌<◌, ◌≡◌, ◌⊎◌, inl, inr, refl, arith, true, false, if◌then◌else◌, ltb, leb, ◌==◌,
  ◌&&◌, ◌||◌, [], ◌∷◌, none, ok,
}
use mmd_os.Memory.{Memory}
use mmd_os.Strings.Compare.{same}
use mmd_os.Octal.Digits.{octal}
use mmd_os.Ustar.{Ustar, all_zero, is_zeroed, tar_file_lookup, ustar_open, ustar_close}
use mmd_os.Ustar.Names.{IsName}
use mmd_os.Ustar.Lookup.{IsArchive, finish, entry, first_named, tar_file_lookup-first_named}
use mmd_os.Ustar.Directory.{past_prefix, remove_prefix}
use mmd_os.Ustar.Files.{IsOpenable, ustar_close-ustar_open}

-- One file "a" of 5 bytes, whose header is at 4096; the string "a" at 100.
abbrev archive_memory : Memory
archive_memory = λ q.
    if q == 100 || q == 4096
    then 97
    else if leb 4220 q && ltb q 4230
    then 48
    else if q == 4230
    then 53
    else if leb 4608 q && ltb q 4613
    then 33
    else 0

abbrev mounted : Ustar
mounted = record { mem = archive_memory; tar_fs_start_address = 4096; open_files = λ i. none }

a-IsName : IsName archive_memory 4096 1
a-IsName = record {
  letters = λ q h k. ground arith;
  no_backslash = λ q h k. ground arith;
  ends = refl;
}

five : octal archive_memory 4221 10 ≡ 5
unfolding octal
five = refl

zeros_end : is_zeroed archive_memory 5120 ≡ true
unfolding all_zero
zeros_end = refl

not_zeros : is_zeroed archive_memory 4096 ≡ false
unfolding all_zero
not_zeros = refl

one_file : IsArchive 400 archive_memory 4096 (4096 ∷ [])
unfolding octal
one_file =
    entry {p = 4096} not_zeros (inl (omega arith)) (omega arith) a-IsName (λ q h k. ground arith)
      (omega arith) (finish zeros_end (inl (omega arith)))

found_first : first_named archive_memory 100 (4096 ∷ []) ≡ 4096
unfolding first_named same
found_first = refl

tar_file_lookup-first_named_example :
    (m' : Memory) × (tar_file_lookup 4 400 100 mounted
      ≡ ok (first_named archive_memory 100 (4096 ∷ []), record mounted { mem = m' }))
    × ((q : ℕ) → (q < 400) ⊎ (400 + 256 ≤ q) → m' q ≡ archive_memory q)
tar_file_lookup-first_named_example =
    tar_file_lookup-first_named 400 100 (4096 ∷ []) 4 mounted (inr (omega arith)) one_file
      (omega arith)

openable : IsOpenable 400 100 0 4096 (4096 ∷ []) mounted
openable = record {
  apart = inr (omega arith);
  bare = λ i file e. absurd cc;
  named = omega arith;
  archive = one_file;
  first = found_first;
  there = omega arith;
  free = record { below = omega arith; free = refl; taken = λ i h. absurd (omega arith) };
}

ustar_close-ustar_open_example :
    (u' : Ustar) × (u'' : Ustar) × (ustar_open 4 400 100 mounted ≡ ok (0, u'))
    × (ustar_close 0 u' ≡ ok (0, u''))
    × ((i : ℕ) → u''.open_files i ≡ none)
ustar_close-ustar_open_example =
    ustar_close-ustar_open 400 100 0 4096 (4096 ∷ []) 4 mounted openable (omega arith)

-- The strings "di/x" at 200 and "dir" at 300.
abbrev two_paths : Memory
two_paths = λ q.
    if q == 200 || q == 300
    then 100
    else if q == 201 || q == 301
    then 105
    else if q == 202
    then 47
    else if q == 203
    then 120
    else if q == 302
    then 114
    else 0

-- A file of the directory "di" counts as one of "dir".
shorter_name_run : remove_prefix 0 4 two_paths 200 300 ≡ ok 203
unfolding remove_prefix past_prefix
shorter_name_run = refl
