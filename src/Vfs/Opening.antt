-- ===== src/Vfs/Opening.antt =====
-- vfs_open of kernel/fs/vfs.c: from a path to a descriptor of a file of the archive.
use mmd_os.Base.{
  ℕ, ◌+◌, ◌≤◌, ◌<◌, ◌≡◌, ◌≢◌, ◌⊎◌, refl, ap, ◌∙◌, arith, ne→==, eq→==, Option, none, some, List,
  length, Outcome, ok,
}
use mmd_os.Strings.{kstrcpy}
use mmd_os.Octal.Digits.{octal}
use mmd_os.Ustar.{Ustar, TarFile, file_size, set_file, minus_one, ustar_get_file_size}
use mmd_os.Ustar.Files.{IsOpenable, ustar_open-opens}
use mmd_os.Vfs.Reading.{IsReading}
use mmd_os.Vfs.{
  ustar_operations, Vfs, Mount, Operations, FileDescriptor, set_memory, set_descriptor, as_int,
  get_rel_path, free_cell, store_opened, open_on, vfs_open,
}
use mmd_os.Vfs.Paths.{IsPrefix, get_rel_path-IsPrefix, free_cell-first, vfs_get_mountpoint_one}

-- One file system, the archive's, is mounted at a name of which the path continues the first `n`
-- bytes, and cell `fd` is the first that counts as free. This is said of the state `v` after the name
-- was copied to the local array.
pub record IsMounted (v : Vfs) (tar fuel path n fd : ℕ) (mount : Mount) : Type 0 where
  pub one : v.mounted_devices_num ≡ 1
  pub found : v.mounted_devices 0 ≡ some mount
  pub id : mount.id ≡ 1
  pub block : Operations
  pub operations : mount.operations ≡ ustar_operations fuel tar block
  pub shared : IsPrefix v.ustar.mem mount.mountpoint path n
  pub below : fd < 512
  pub free : (v.vfs_opened_files fd).fs_file_id ≡ 0
  pub taken : (i : ℕ) → i < fd → (v.vfs_opened_files i).fs_file_id ≢ 0

-- The descriptor that is stored.
abbrev opened_descriptor : ℕ → TarFile → FileDescriptor
opened_descriptor id file = record {
  fs_file_id = id;
  mountpoint_id = 1;
  buf_read_pos = 0;
  buf_write_pos = 0;
  file_size = file.size;
}

store_opened_from :
    (id fd : ℕ) (file : TarFile) (v : Vfs) (mount : Mount)
    → mount.id ≡ 1
    → mount.operations.get_file_size ≡ ustar_get_file_size
    → v.ustar.open_files id ≡ some file
    → fd < 512
    → free_cell 512 0 v ≡ some fd
    → store_opened mount id v ≡ ok (fd, set_descriptor fd (opened_descriptor id file) v)
unfolding store_opened ustar_get_file_size
store_opened_from id fd file v mount one gets e below free =
    rw (free, store_opened) (rw gets (rw (e, ustar_get_file_size) (rw one (rw int refl))))
  where
    int : as_int fd ≡ fd
    int = ground arith

open_on_from :
    (fuel path n id flags : ℕ) (u : Ustar) (v : Vfs) (mount : Mount)
    → get_rel_path fuel v.ustar.mem mount.mountpoint path ≡ ok (path + n)
    → mount.operations.open_file (path + n) flags v.ustar ≡ ok (id, u)
    → id < 512
    → open_on fuel mount path flags v ≡ store_opened mount id (record v { ustar = u })
unfolding open_on
open_on_from fuel path n id flags u v mount rel opened below =
    rw rel (rw opened (rw int (rw (ne→== id minus_one (omega arith)) refl)))
  where
    int : as_int id ≡ id
    int = ground arith

open_on-IsReading :
    (tar fuel path n fd id header flags : ℕ) (headers : List ℕ) (v : Vfs) (mount : Mount)
    → IsMounted v tar fuel path n fd mount
    → IsOpenable tar (path + n) id header headers v.ustar
    → length headers + 3 ≤ fuel
    → n < fuel
    → (v' : Vfs) × (open_on fuel mount path flags v ≡ ok (fd, v'))
      × IsReading v' fd
          (record {
            header = header;
            references = 1;
            size = octal v.ustar.mem (file_size header + 1) 10;
          })
          0
      × ((q : ℕ) → (q < tar) ⊎ (tar + 256 ≤ q) → v'.ustar.mem q ≡ v.ustar.mem q)
open_on-IsReading tar fuel path n fd id header flags headers v mount mo o enough more =
    let (m, opened, kept) =
      ustar_open-opens tar (path + n) id header headers fuel v.ustar o enough in
    let file : TarFile = record {
      header = header;
      references = 1;
      size = octal v.ustar.mem (file_size header + 1) 10;
    } in
    let u : Ustar = set_file id (some file) (record v.ustar { mem = m }) in
    let here : u.open_files id ≡ some file = rw (eq→== id id refl) refl in
    let v' : Vfs = set_descriptor fd (opened_descriptor id file) (record v { ustar = u }) in
    let rel = get_rel_path-IsPrefix n fuel v.ustar.mem mount.mountpoint path mo.shared more in
    let opens : mount.operations.open_file (path + n) flags v.ustar ≡ ok (id, u) =
      ap (λ o. o.open_file (path + n) flags v.ustar) mo.operations ∙ opened in
    let stored =
      store_opened_from id fd file (record v { ustar = u }) mount mo.id
        (ap (λ o. o.get_file_size) mo.operations) here mo.below
        (free_cell-first 512 0 fd (record v { ustar = u }) (omega arith) (omega (arith, mo.below))
          mo.free mo.taken) in
    (
      v',
      open_on_from fuel path n id flags u v mount rel opens o.free.below ∙ stored,
      record {
        mount = mount;
        mounted = rw (eq→== fd fd refl) mo.found;
        reads = ap (λ o. o.read) mo.operations;
        in_use = rw (eq→== fd fd refl) (λ e. omega (arith, o.free.below, e));
        opened = rw (eq→== fd fd refl) here;
        at = rw (eq→== fd fd refl) refl;
        inside = omega arith;
      },
      kept,
    )

vfs_open_one :
    (local fuel path flags : ℕ) (v : Vfs) (mount : Mount)
    → v.mounted_devices_num ≡ 1
    → v.mounted_devices 0 ≡ some mount
    → vfs_open fuel local path flags v
      ≡ open_on fuel mount path flags
          (set_memory (kstrcpy v.ustar.mem local mount.mountpoint 512) v)
unfolding vfs_open
vfs_open_one local fuel path flags v mount one found =
    ap
      (λ (r : Option Mount × Vfs). elim r.0 as (λ _. Outcome (ℕ × Vfs)) [
        | none ↦ ok (minus_one, r.1)
        | some mount ↦ open_on fuel mount path flags r.1
      ])
      (vfs_get_mountpoint_one local path v mount one found)

-- With the archive as the one mounted file system, at a name of which the path continues the first
-- `n` bytes, with the rest of the path openable in the archive, cell `fd` the first that counts as
-- free, and fuel for more than `n` rounds and for 3 more than the headers, `vfs_open` returns `fd`.
-- That descriptor then stands at the start of the file of the header, and memory is as after the
-- mount point's name was copied to the array at `local`, but for the 256 bytes at `tar`.
pub vfs_open-IsReading :
    (local tar fuel path n fd id header flags : ℕ) (headers : List ℕ) (v : Vfs) (mount : Mount)
    → let v1 = set_memory (kstrcpy v.ustar.mem local mount.mountpoint 512) v in
      IsMounted v1 tar fuel path n fd mount
      → IsOpenable tar (path + n) id header headers v1.ustar
      → length headers + 3 ≤ fuel
      → n < fuel
      → (v' : Vfs) × (vfs_open fuel local path flags v ≡ ok (fd, v'))
        × IsReading v' fd
            (record {
              header = header;
              references = 1;
              size = octal v1.ustar.mem (file_size header + 1) 10;
            })
            0
        × ((q : ℕ) → (q < tar) ⊎ (tar + 256 ≤ q) → v'.ustar.mem q ≡ v1.ustar.mem q)
vfs_open-IsReading local tar fuel path n fd id header flags headers v mount mo o enough more =
    let v1 = set_memory (kstrcpy v.ustar.mem local mount.mountpoint 512) v in
    let (v', opened, reading, kept) =
      open_on-IsReading tar fuel path n fd id header flags headers v1 mount mo o enough more in
    (v', vfs_open_one local fuel path flags v mount mo.one mo.found ∙ opened, reading, kept)
