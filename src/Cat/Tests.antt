-- ===== src/Cat/Tests.antt =====
-- Tests of the command cat, from a path to what is printed.
use mmd_os.Base.{
  ℕ, ◌<◌, ◌+◌, ◌≡◌, inl, inr, refl, sym, arith, true, false, if◌then◌else◌, ltb, leb, ◌==◌, ◌&&◌,
  ◌||◌, [], ◌∷◌, none, some, ok, panicked,
}
use mathlib.Core.Path.{subst}
use mmd_os.Memory.{Memory, bytes, write}
use mmd_os.Strings.{kstrcpy}
use mmd_os.Strings.Compare.{same}
use mmd_os.Octal.Digits.{octal}
use mmd_os.Ustar.{TarFile, all_zero, is_zeroed}
use mmd_os.Ustar.Names.{IsName}
use mmd_os.Ustar.Lookup.{IsArchive, finish, entry, first_named}
use mmd_os.Ustar.Files.{IsOpenable}
use mmd_os.Vfs.{Vfs, Mount, Operations, ustar_operations, vfs_open}
use mmd_os.Vfs.Opening.{IsMounted}
use mmd_os.Vfs.Reading.{IsReading}
use mmd_os.Cat.{hand_over, print_string, print_file}
use mmd_os.Cat.Prints.{IsText, print_file-bytes}
use mmd_os.Cat.Whole.{print_file-vfs_open}

-- The path "/a" at 100, one file "a" of 5 bytes whose header is at 4096, and "/" at 7033.
abbrev disk : Memory
disk = λ q.
    if q == 100 || q == 7033
    then 47
    else if q == 101 || q == 4096
    then 97
    else if leb 4220 q && ltb q 4230
    then 48
    else if q == 4230
    then 53
    else if leb 4608 q && ltb q 4613
    then 33
    else 0

-- After the mount point's name was copied to 6000.
abbrev named_disk : Memory
named_disk = write (write disk 6000 47) 6001 0

copied : kstrcpy disk 6000 7033 512 ≡ named_disk
unfolding kstrcpy
copied = refl

abbrev nothing : Operations
nothing = record {
  open_file = λ path flags u. panicked;
  close = λ file u. panicked;
  read = λ file buf nbytes offset u. (0, u);
  write = λ file buf nbytes u. panicked;
  get_file_size = λ file u. panicked;
}

abbrev root : Mount
root = record {
  id = 1;
  fs_type = 7001;
  mountpoint = 7033;
  device = 0;
  operations = ustar_operations 4 400 nothing;
}

abbrev booted : Memory → Vfs
booted m = record {
  ustar = record { mem = m; tar_fs_start_address = 4096; open_files = λ i. none };
  next_mountpoint_id = 2;
  mounted_devices = λ i. if i == 0 then some root else none;
  mounted_devices_num = 1;
  vfs_opened_files = λ i. record {
    fs_file_id = 0;
    mountpoint_id = 0;
    buf_read_pos = 0;
    buf_write_pos = 0;
    file_size = 0;
  };
}

mounted : IsMounted (booted named_disk) 400 4 100 1 0 root
mounted = record {
  one = refl;
  found = refl;
  id = refl;
  block = nothing;
  operations = refl;
  shared = record { agree = λ i h. ground arith; differ = omega arith };
  below = omega arith;
  free = refl;
  taken = λ i h. absurd (omega arith);
}

a-IsName : IsName named_disk 4096 1
a-IsName = record {
  letters = λ q h k. ground arith;
  no_backslash = λ q h k. ground arith;
  ends = refl;
}

zeros_end : is_zeroed named_disk 5120 ≡ true
unfolding all_zero
zeros_end = refl

not_zeros : is_zeroed named_disk 4096 ≡ false
unfolding all_zero
not_zeros = refl

one_file : IsArchive 400 named_disk 4096 (4096 ∷ [])
unfolding octal
one_file =
    entry {p = 4096} not_zeros (inl (omega arith)) (omega arith) a-IsName (λ q h k. ground arith)
      (omega arith) (finish zeros_end (inl (omega arith)))

found_first : first_named named_disk 101 (4096 ∷ []) ≡ 4096
unfolding first_named same
found_first = refl

openable : IsOpenable 400 101 0 4096 (4096 ∷ []) (booted named_disk).ustar
openable = record {
  apart = inr (omega arith);
  bare = λ i file e. absurd cc;
  named = omega arith;
  archive = one_file;
  first = found_first;
  there = omega arith;
  free = record { below = omega arith; free = refl; taken = λ i h. absurd (omega arith) };
}

five : octal named_disk 4221 10 ≡ 5
unfolding octal
five = refl

-- The memory that `vfs_open` works on.
abbrev memory : Memory
memory = kstrcpy disk 6000 7033 512

mounted_there : IsMounted (booted memory) 400 4 100 1 0 root
mounted_there = subst (λ m. IsMounted (booted m) 400 4 100 1 0 root) (sym copied) mounted

IsOpenable-memory : IsOpenable 400 101 0 4096 (4096 ∷ []) (booted memory).ustar
IsOpenable-memory =
    subst (λ m. IsOpenable 400 101 0 4096 (4096 ∷ []) (booted m).ustar) (sym copied) openable

five_there : octal memory 4221 10 ≡ 5
five_there = subst (λ m. octal m 4221 10 ≡ 5) (sym copied) five

-- The five bytes are '!'.
IsText-named_disk : (q : ℕ) → q < octal named_disk 4221 10 → IsText (named_disk (4096 + 512 + q))
IsText-named_disk q h = (ground (arith, h, five), ground (arith, h, five))

IsText-memory : (q : ℕ) → q < octal memory 4221 10 → IsText (memory (4096 + 512 + q))
IsText-memory =
    subst (λ m. (q : ℕ) → q < octal m 4221 10 → IsText (m (4096 + 512 + q))) (sym copied)
      IsText-named_disk

print_file-vfs_open_example :
    (v' : Vfs) × (v'' : Vfs) × (vfs_open 4 6000 100 0 (booted disk) ≡ ok (0, v'))
    × (print_file (print_string (λ i. 0) 20000 10000) 2 0 8000 v'
        ≡ ok (bytes memory (4096 + 512) (octal memory 4221 10), v''))
print_file-vfs_open_example =
    print_file-vfs_open (λ i. 0) 20000 10000 6000 400 4 100 1 0 0 4096 0 2 8000 (4096 ∷ [])
      (booted disk) root mounted_there IsOpenable-memory (omega arith) (omega arith)
      (omega (arith, five_there)) (omega (arith, five_there)) (inl (omega arith))
      (inr (omega (arith, five_there))) (inr (omega arith)) (inr (omega (arith, five_there)))
      IsText-memory

-- A descriptor of the file, at its start.
abbrev five_bytes : TarFile
five_bytes = record { header = 4096; references = 1; size = 5 }

abbrev opened : Vfs
opened = record (booted disk) {
  ustar = record { mem = disk; tar_fs_start_address = 4096; open_files = λ i. some five_bytes };
  vfs_opened_files = λ i. record {
    fs_file_id = 0;
    mountpoint_id = 1;
    buf_read_pos = 0;
    buf_write_pos = 0;
    file_size = 5;
  };
}

at_start : IsReading opened 0 five_bytes 0
at_start = record {
  mount = root;
  mounted = refl;
  reads = refl;
  in_use = omega arith;
  opened = refl;
  at = refl;
  inside = omega arith;
}

print_file-bytes_example :
    (left : Vfs) × (print_file hand_over 2 0 8000 opened ≡ ok (bytes disk (4096 + 512) 5, left))
    × IsReading left 0 five_bytes 5
print_file-bytes_example =
    print_file-bytes 2 0 8000 opened five_bytes (omega arith) (omega arith) (inr (omega arith))
      at_start (omega arith)
