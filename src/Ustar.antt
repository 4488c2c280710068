-- ===== src/Ustar.antt =====
-- The read-only file system on a tar archive in memory: kernel/fs/ustar.c.
mod Tests
pub mod Names
pub mod Lookup
pub mod Reading
pub mod NotOpen
pub mod Files
pub mod Directory
use mmd_os.Base.{
  ℕ, zero, suc, ◌+◌, ◌-◌, ◌*◌, ◌/◌, ◌%◌, ◌^◌, Bool, true, false, if◌then◌else◌, ltb, ◌==◌, ◌!=◌,
  ◌&&◌, Option, none, some, List, [], ◌∷◌, u16, u64, sub64, Outcome, ok, panicked, out_of_fuel,
  ◌>>=◌,
}
use mmd_os.Memory.{Memory, write, memset}
use mmd_os.Strings.{kstrcmp, kstrcpy}
use mmd_os.Octal.{oct_ascii_to_dec}

abbrev pub max_files : ℕ
max_files = 512

-- A header is its address; these are the places of its fields.
abbrev pub filename : ℕ → ℕ
filename header = header

abbrev pub file_size : ℕ → ℕ
file_size header = header + 124

abbrev pub filename_prefix : ℕ → ℕ
filename_prefix header = header + 345

pub record TarFile : Type 0 where
  pub header : ℕ
  pub references : ℕ
  pub size : ℕ

-- Memory, and the static variables. A cell of `open_files` is NULL, or the block of its own that
-- `kalloc` gave it, with what is in it.
pub record Ustar : Type 0 where
  pub mem : Memory
  pub tar_fs_start_address : ℕ
  pub open_files : ℕ → Option TarFile

abbrev pub set_file : ℕ → Option TarFile → Ustar → Ustar
set_file id file u = record u { open_files = λ i. if id == i then file else u.open_files i }

-- `is_zeroed`, by the bytes left.
unfoldable pub all_zero : ℕ → Memory → ℕ → Bool
all_zero zero m p = true
all_zero (suc n) m p = let rest = all_zero n m (p + 1) in if m p != 0 then false else rest

abbrev pub is_zeroed : Memory → ℕ → Bool
is_zeroed m p = all_zero 512 m p

-- The name of a header is put together in the local array `tar_filename`.
abbrev pub copy_name : ℕ → ℕ → Memory → Memory
copy_name tar_filename header m =
    if m (filename_prefix header) != 0
    then kstrcpy (kstrcpy m tar_filename (filename_prefix header) 155) (tar_filename + 155)
        (filename header) 100
    else kstrcpy m tar_filename (filename header) 155

-- `if (tar_filename[i] == '\\') tar_filename[i] = '/'`, from `i` on for `n` bytes.
pub mend_slashes : ℕ → ℕ → Memory → Memory
mend_slashes zero p m = m
mend_slashes (suc n) p m = mend_slashes n (p + 1) (if m p == 92 then write m p 47 else m)

abbrev pub round_up : ℕ → ℕ
round_up size = if size % 512 != 0 then (size / 512 + 1) * 512 else size

abbrev pub size_of : Memory → ℕ → Outcome ℕ
size_of m header = oct_ascii_to_dec 12 m (file_size header) 12

-- The loop of `tar_file_lookup`, on fuel. At a block of zeros the record stays where it is.
pub lookup_from : ℕ → ℕ → ℕ → ℕ → ℕ → Memory → Outcome (ℕ × Memory)
lookup_from zero tar_filename searched_file zero_counter current m = out_of_fuel
lookup_from (suc fuel) tar_filename searched_file zero_counter current m =
    let m' = mend_slashes 255 tar_filename (copy_name tar_filename current m) in
    let again = lookup_from fuel tar_filename searched_file (zero_counter + 1) current m in
    let next =
      (size_of m' current >>= λ size.
      lookup_from fuel tar_filename searched_file 0 (u64 (current + 512 + round_up size)) m') in
    if ltb zero_counter 2
    then if is_zeroed m current
      then again
      else (kstrcmp 256 m' tar_filename searched_file 256 >>= λ found.
          if found then ok (current, m') else next)
    else ok (0, m)

unfoldable pub tar_file_lookup : ℕ → ℕ → ℕ → Ustar → Outcome (ℕ × Ustar)
tar_file_lookup fuel tar_filename searched_file u =
    lookup_from fuel tar_filename searched_file 0 u.tar_fs_start_address u.mem >>= λ (header, m).
    ok (header, record u { mem = m })

abbrev pub minus_one : ℕ
minus_one = 2 ^ 64 - 1

abbrev pub null : ℕ
null = 0

-- The name as `is_already_open` puts it together: its second branch copies the prefix too.
abbrev pub copy_open_name : ℕ → ℕ → Memory → Memory
copy_open_name tar_filename header m =
    if m (filename_prefix header) != 0
    then kstrcpy (kstrcpy m tar_filename (filename_prefix header) 155) (tar_filename + 155)
        (filename header) 100
    else kstrcpy m tar_filename (filename_prefix header) 155

-- The loop of `is_already_open`, by the cells left, from cell `i` on.
pub open_from : ℕ → ℕ → ℕ → ℕ → Ustar → Outcome (ℕ × Ustar)
open_from zero i tar_filename name u = ok (minus_one, u)
open_from (suc n) i tar_filename name u = elim (u.open_files i) [
  | none ↦ open_from n (i + 1) tar_filename name u
  | some file ↦
      let m = copy_open_name tar_filename file.header (memset u.mem tar_filename 0 256) in
      let rest = open_from n (i + 1) tar_filename name (record u { mem = m }) in
      let unused = open_from n (i + 1) tar_filename name u in
      if ltb 0 file.references
      then (kstrcmp 256 m tar_filename name 256 >>= λ found.
          if found then ok (i, record u { mem = m }) else rest)
      else unused
]

unfoldable pub is_already_open : ℕ → ℕ → Ustar → Outcome (ℕ × Ustar)
is_already_open tar_filename name u = open_from max_files 0 tar_filename name u

-- The loop of `find_open_id`.
pub free_from : ℕ → ℕ → Ustar → ℕ
free_from zero i u = minus_one
free_from (suc n) i u = elim (u.open_files i) [ none ↦ i | some file ↦ free_from n (i + 1) u ]

unfoldable pub find_open_id : Ustar → ℕ
find_open_id u = free_from max_files 0 u

-- `open_files[id]->references++`; a read through NULL is a page fault.
pub add_reference : ℕ → Ustar → Outcome Ustar
add_reference id u = elim (u.open_files id) [
  | none ↦ panicked
  | some file ↦ ok (set_file id (some (record file { references = u16 (file.references + 1) })) u)
]

-- A new descriptor for a header, in the first cell that is free.
pub new_file : ℕ → Ustar → Outcome (ℕ × Ustar)
new_file header u =
    if find_open_id u == minus_one
    then ok (minus_one, u)
    else (size_of u.mem header >>= λ size. ok (
      find_open_id u,
      set_file (find_open_id u) (some (record { header = header; references = 1; size = size })) u,
    ))

-- `ustar_open`; the local arrays of `is_already_open` and `tar_file_lookup`, which are in use one
-- after the other, lie both at `tar_filename`.
unfoldable pub ustar_open : ℕ → ℕ → ℕ → Ustar → Outcome (ℕ × Ustar)
ustar_open fuel tar_filename path u = is_already_open tar_filename path u >>= λ (id, u1).
    if ltb id (2 ^ 63)
    then (add_reference id u1 >>= λ u2. ok (id, u2))
    else (tar_file_lookup fuel tar_filename path u1 >>= λ (header, u2).
        if header == null then ok (minus_one, u2) else new_file header u2)

-- The loop of `ustar_read`, by the bytes left to ask for; `i` were read.
pub read_bytes : ℕ → ℕ → ℕ → ℕ → ℕ → ℕ → Memory → ℕ × Memory
read_bytes zero i b content_pointer offset size m = (i, m)
read_bytes (suc left) i b content_pointer offset size m =
    let rest =
      read_bytes left (i + 1) (b + 1) (content_pointer + 1) offset size
        (write m b (m content_pointer)) in
    if ltb (u64 (i + offset)) size then rest else (i, m)

unfoldable pub ustar_read : ℕ → ℕ → ℕ → ℕ → Ustar → ℕ × Ustar
ustar_read file_id buffer nbytes offset u = elim (u.open_files file_id) [
  | none ↦ (0, u)
  | some file ↦
      if ltb file.size offset
      then (0, u)
      else let (i, m) =
          read_bytes nbytes 0 buffer (file.header + 512 + offset) offset file.size u.mem in
        (i, record u { mem = m })
]

unfoldable pub ustar_close : ℕ → Ustar → Outcome (ℕ × Ustar)
ustar_close file_id u = elim (u.open_files file_id) [
  | none ↦ panicked
  | some file ↦
      let references = u16 (file.references + 2 ^ 16 - 1) in
      if ltb references 1
      then ok (0, set_file file_id none u)
      else ok (0, set_file file_id (some (record file { references = references })) u)
]

unfoldable pub ustar_set_start_address : ℕ → Ustar → Ustar
ustar_set_start_address address u = record u { tar_fs_start_address = address }

unfoldable pub ustar_get_file_size : ℕ → Ustar → Outcome ℕ
ustar_get_file_size file_id u = elim (u.open_files file_id) [
  | none ↦ panicked
  | some file ↦ ok file.size
]
