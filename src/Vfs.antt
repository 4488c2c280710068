-- ===== src/Vfs.antt =====
-- The virtual file system: mount points and open files of kernel/fs/vfs.c.
mod Tests
pub mod Paths
pub mod Opening
pub mod Reading
pub mod Closing
use mmd_os.Base.{
  ℕ, zero, suc, ◌+◌, ◌-◌, ◌%◌, ◌^◌, Bool, true, false, if◌then◌else◌, ltb, leb, ◌==◌, Option, none,
  some, u8, u16, u64, sub64, Outcome, ok, panicked, out_of_fuel, ◌>>=◌,
}
use mmd_os.Memory.{Memory}
use mmd_os.Strings.{kstrcmp, kstrcpy}
use mmd_os.Ustar.{
  Ustar, minus_one, ustar_open, ustar_read, ustar_close, ustar_get_file_size,
  ustar_set_start_address,
}

abbrev pub max_opened : ℕ
max_opened = 512

-- `(int) x` as a 64-bit word.
abbrev pub as_int : ℕ → ℕ
as_int x = if ltb (x % 2 ^ 32) (2 ^ 31) then x % 2 ^ 32 else x % 2 ^ 32 + (2 ^ 64 - 2 ^ 32)

-- `fs_operations_t`, but for the operations on directories; `open_file` is its `open`.
pub record Operations : Type 0 where
  pub open_file : ℕ → ℕ → Ustar → Outcome (ℕ × Ustar)
  pub close : ℕ → Ustar → Outcome (ℕ × Ustar)
  pub read : ℕ → ℕ → ℕ → ℕ → Ustar → ℕ × Ustar
  pub write : ℕ → ℕ → ℕ → Ustar → Outcome (ℕ × Ustar)
  pub get_file_size : ℕ → Ustar → Outcome ℕ

-- `mountpoint_t`; its two strings are at the addresses `fs_type` and `mountpoint`.
pub record Mount : Type 0 where
  pub id : ℕ
  pub fs_type : ℕ
  pub mountpoint : ℕ
  pub device : ℕ
  pub operations : Operations

-- `file_descriptor_t`, but for the fields that vfs.c never sets.
pub record FileDescriptor : Type 0 where
  pub fs_file_id : ℕ
  pub mountpoint_id : ℕ
  pub buf_read_pos : ℕ
  pub buf_write_pos : ℕ
  pub file_size : ℕ

pub record Vfs : Type 0 where
  pub ustar : Ustar
  pub next_mountpoint_id : ℕ
  pub mounted_devices : ℕ → Option Mount
  pub mounted_devices_num : ℕ
  pub vfs_opened_files : ℕ → FileDescriptor

abbrev pub set_memory : Memory → Vfs → Vfs
set_memory m v = record v { ustar = record v.ustar { mem = m } }

abbrev pub set_descriptor : ℕ → FileDescriptor → Vfs → Vfs
set_descriptor fd file v = record v {
  vfs_opened_files = λ i. if fd == i then file else v.vfs_opened_files i;
}

-- The assignments for "ustar"; `write` keeps what the heap's block held.
abbrev pub ustar_operations : ℕ → ℕ → Operations → Operations
ustar_operations fuel tar_filename block = record block {
  read = ustar_read;
  open_file = λ path flags u. ustar_open fuel tar_filename path u;
  close = ustar_close;
  get_file_size = ustar_get_file_size;
}

-- `vfs_mount`. The block that `kalloc` gives for the mount point is at `new_mountpoint`, the other
-- one holds `block`, and the constant "ustar" is at `ustar_name`.
unfoldable pub vfs_mount : ℕ → ℕ → ℕ → Operations → ℕ → ℕ → ℕ → ℕ → Vfs → Outcome Vfs
vfs_mount fuel tar_filename new_mountpoint block ustar_name device target fs_type v =
    let m =
      kstrcpy (kstrcpy v.ustar.mem (new_mountpoint + 1) fs_type 32) (new_mountpoint + 33) target
        512 in
    kstrcmp 5 m fs_type ustar_name 5 >>= λ is_ustar. ok (record (set_memory m v) {
      next_mountpoint_id = u64 (v.next_mountpoint_id + 1);
      mounted_devices = λ i.
          if v.mounted_devices_num == i
          then some (record {
            id = u8 v.next_mountpoint_id;
            fs_type = new_mountpoint + 1;
            mountpoint = new_mountpoint + 33;
            device = device;
            operations = if is_ustar then ustar_operations fuel tar_filename block else block;
          })
          else v.mounted_devices i;
      mounted_devices_num = u8 (v.mounted_devices_num + 1);
    })

-- The inner loop of `vfs_get_mountpoint`, by the rounds left: where path and mount point differ.
pub differ_from : ℕ → Memory → ℕ → ℕ → ℕ → Option ℕ
differ_from zero m c mountpoint j = none
differ_from (suc n) m c mountpoint j =
    let rest = differ_from n m (c + 1) mountpoint (j + 1) in
    if m c == m (mountpoint + j) then rest else some j

-- Its outer loop, by the mount points left. The local array is at `mountpoint`.
pub longest_from : ℕ → ℕ → ℕ → ℕ → ℕ → ℕ → Vfs → ℕ × Vfs
longest_from zero i longest id mountpoint path v = (id, v)
longest_from (suc n) i longest id mountpoint path v = elim (v.mounted_devices i) [
  | none ↦ longest_from n (u8 (i + 1)) longest id mountpoint path v
  | some mount ↦
      let v' = set_memory (kstrcpy v.ustar.mem mountpoint mount.mountpoint 512) v in
      let skip = longest_from n (u8 (i + 1)) longest id mountpoint path v' in
      elim (differ_from 512 v'.ustar.mem path mountpoint 0) [
        | none ↦ skip
        | some j ↦
            let take = longest_from n (u8 (i + 1)) j i mountpoint path v' in
            if ltb longest j then take else skip
      ]
]

unfoldable pub vfs_get_mountpoint : ℕ → ℕ → Vfs → Option Mount × Vfs
vfs_get_mountpoint mountpoint path v =
    let (id, v') = longest_from v.mounted_devices_num 0 0 0 mountpoint path v in
    (v'.mounted_devices id, v')

abbrev pub get_mountpoint_by_id : ℕ → Vfs → Option Mount
get_mountpoint_by_id mountpoint_id v = v.mounted_devices (sub64 mountpoint_id 1)

-- `get_rel_path`, on fuel. Its condition compares characters with the address of a string, so it
-- always holds.
pub get_rel_path : ℕ → Memory → ℕ → ℕ → Outcome ℕ
get_rel_path zero m m_path path = out_of_fuel
get_rel_path (suc fuel) m m_path path =
    let rest = get_rel_path fuel m (m_path + 1) (path + 1) in
    if m m_path == m path then rest else ok path

-- The first cell whose `fs_file_id` is 0, by the cells left from `i` on.
unfoldable pub free_cell : ℕ → ℕ → Vfs → Option ℕ
free_cell zero i v = none
free_cell (suc n) i v =
    let rest = free_cell n (i + 1) v in
    if (v.vfs_opened_files i).fs_file_id == 0 then some i else rest

-- `vfs_open` from the test of the file system's answer on; a cell is copied, so the block that
-- `kalloc` gives for it is not seen again.
pub store_opened : Mount → ℕ → Vfs → Outcome (ℕ × Vfs)
store_opened mount fs_specific_id v = elim (free_cell max_opened 0 v) [
  | none ↦ ok (minus_one, v)
  | some vfs_id ↦ mount.operations.get_file_size fs_specific_id v.ustar >>= λ size. ok (
    as_int vfs_id,
    set_descriptor vfs_id
        (record {
          fs_file_id = fs_specific_id;
          mountpoint_id = mount.id;
          buf_read_pos = 0;
          buf_write_pos = 0;
          file_size = size;
        })
        v,
  )
]

pub open_on : ℕ → Mount → ℕ → ℕ → Vfs → Outcome (ℕ × Vfs)
open_on fuel mount path flags v =
    get_rel_path fuel v.ustar.mem mount.mountpoint path >>= λ rel_path.
    mount.operations.open_file rel_path flags v.ustar >>= λ (opened, u).
    if as_int opened == minus_one
    then ok (minus_one, record v { ustar = u })
    else store_opened mount (as_int opened) (record v { ustar = u })

-- `vfs_open`; the local array of `vfs_get_mountpoint` is at `mountpoint`.
unfoldable pub vfs_open : ℕ → ℕ → ℕ → ℕ → Vfs → Outcome (ℕ × Vfs)
vfs_open fuel mountpoint path flags v =
    let (found, v') = vfs_get_mountpoint mountpoint path v in
    elim found [ none ↦ ok (minus_one, v') | some mount ↦ open_on fuel mount path flags v' ]

-- An operation of the file system that a descriptor's mount point names; a call through NULL is a
-- page fault.
pub with_mount {ℓ} : {A : Type ℓ} → ℕ → Vfs → (Mount → Outcome A) → Outcome A
with_mount mountpoint_id v body = elim (get_mountpoint_by_id mountpoint_id v) [
  | none ↦ panicked
  | some mount ↦ body mount
]

-- The descriptor is an index that is not negative.
unfoldable pub vfs_close : ℕ → Vfs → Outcome (ℕ × Vfs)
vfs_close fd v =
    let file = v.vfs_opened_files fd in
    if file.fs_file_id == minus_one
    then ok (0, v)
    else with_mount file.mountpoint_id v λ mount.
      mount.operations.close file.fs_file_id v.ustar >>= λ (closed, u).
      if as_int closed == 0
      then ok
          (0, set_descriptor fd (record file { fs_file_id = minus_one }) (record v { ustar = u }))
      else ok (minus_one, record v { ustar = u })

unfoldable pub vfs_read : ℕ → ℕ → ℕ → Vfs → Outcome (ℕ × Vfs)
vfs_read fd buf nbytes v =
    let file = v.vfs_opened_files fd in
    if file.fs_file_id == minus_one
    then ok (0, v)
    else with_mount file.mountpoint_id v λ mount.
      let (bytes_read, u) =
        mount.operations.read file.fs_file_id buf nbytes file.buf_read_pos v.ustar in
      if bytes_read == 0
      then ok (0, record v { ustar = u })
      else ok (
        bytes_read,
        set_descriptor fd (record file { buf_read_pos = u64 (file.buf_read_pos + bytes_read) })
            (record v { ustar = u }),
      )

-- What `vfs_write` does with the descriptor after the file system wrote `nbytes` bytes.
abbrev pub advance_write : ℕ → FileDescriptor → FileDescriptor
advance_write nbytes file =
    if ltb (u64 (file.buf_write_pos + nbytes)) file.file_size
    then record file { buf_write_pos = u64 (file.buf_write_pos + nbytes) }
    else record file {
      buf_write_pos = u64 (file.buf_write_pos + nbytes);
      file_size = u64 (file.buf_write_pos + nbytes);
    }

unfoldable pub vfs_write : ℕ → ℕ → ℕ → Vfs → Outcome (ℕ × Vfs)
vfs_write fd buf nbytes v =
    let file = v.vfs_opened_files fd in
    if file.fs_file_id == minus_one
    then ok (minus_one, v)
    else with_mount file.mountpoint_id v λ mount.
      mount.operations.write (as_int file.fs_file_id) buf nbytes v.ustar >>= λ (written, u).
      if leb (2 ^ 63) (as_int written)
      then ok (as_int written, record v { ustar = u })
      else ok
          (as_int written, set_descriptor fd (advance_write nbytes file) (record v { ustar = u }))

-- The system calls: the arguments are 64-bit words.
abbrev pub vfs_open_syscall : ℕ → ℕ → ℕ → ℕ → Vfs → Outcome (ℕ × Vfs)
vfs_open_syscall fuel mountpoint path flags v = vfs_open fuel mountpoint path (as_int flags) v

abbrev pub vfs_close_syscall : ℕ → Vfs → Outcome (ℕ × Vfs)
vfs_close_syscall file_id v = vfs_close (as_int file_id) v

abbrev pub vfs_read_syscall : ℕ → ℕ → ℕ → Vfs → Outcome (ℕ × Vfs)
vfs_read_syscall file_id buf nbytes v = vfs_read (as_int file_id) buf nbytes v

-- `vfs_init`, with the address of the first module and those of its string constants.
unfoldable pub vfs_init : ℕ → ℕ → ℕ → Operations → ℕ → ℕ → ℕ → ℕ → Vfs → Outcome Vfs
vfs_init fuel tar_filename new_mountpoint block ustar_name main_memory root address v =
    vfs_mount fuel tar_filename new_mountpoint block ustar_name main_memory root ustar_name
      (record v { ustar = ustar_set_start_address address v.ustar })
