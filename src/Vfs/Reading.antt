-- ===== src/Vfs/Reading.antt =====
-- vfs_read of kernel/fs/vfs.c on an open file of the archive.
use mmd_os.Base.{
  ℕ, ◌+◌, ◌^◌, ◌≤◌, ◌<◌, ◌≡◌, ◌≢◌, refl, sym, ap, ◌∙◌, arith, if◌then◌else◌, ◌==◌, ne→==, eq→==,
  ℕ_discrete, some, u64, ok,
}
use mmd_os.Memory.{memcpy}
use mmd_os.Ustar.{Ustar, TarFile, minus_one, ustar_read}
use mmd_os.Ustar.Reading.{bytes_there, ustar_read-memcpy}
use mmd_os.Vfs.{
  Vfs, Mount, FileDescriptor, set_descriptor, get_mountpoint_by_id, with_mount, vfs_read,
}

-- Descriptor `fd` is of the file `file` of the archive, and stands at `pos`.
pub record IsReading (v : Vfs) (fd : ℕ) (file : TarFile) (pos : ℕ) : Type 0 where
  pub mount : Mount
  pub mounted : get_mountpoint_by_id (v.vfs_opened_files fd).mountpoint_id v ≡ some mount
  pub reads : mount.operations.read ≡ ustar_read
  pub in_use : (v.vfs_opened_files fd).fs_file_id ≢ minus_one
  pub opened : v.ustar.open_files (v.vfs_opened_files fd).fs_file_id ≡ some file
  pub at : (v.vfs_opened_files fd).buf_read_pos ≡ pos
  pub inside : pos ≤ file.size

-- One call of `vfs_read` that returns `k` and moves the descriptor on by `k` bytes.
pub record Advances (v : Vfs) (fd buf nbytes : ℕ) (file : TarFile) (pos k : ℕ) : Type 0 where
  pub left : Vfs
  pub returns : vfs_read fd buf nbytes v ≡ ok (k, left)
  pub memory : left.ustar.mem ≡ memcpy v.ustar.mem buf (file.header + 512 + pos) k
  pub reading : IsReading left fd file (pos + k)

vfs_read_from :
    (fd buf nbytes k : ℕ) (v : Vfs) (u : Ustar) (mount : Mount)
    → (v.vfs_opened_files fd).fs_file_id ≢ minus_one
    → get_mountpoint_by_id (v.vfs_opened_files fd).mountpoint_id v ≡ some mount
    → mount.operations.read ≡ ustar_read
    → ustar_read
        (v.vfs_opened_files fd).fs_file_id
        buf
        nbytes
        (v.vfs_opened_files fd).buf_read_pos
        v.ustar
      ≡ (k, u)
    → let d = v.vfs_opened_files fd in
      vfs_read fd buf nbytes v ≡ (
        if k == 0
        then ok (0, record v { ustar = u })
        else ok (
          k,
          set_descriptor fd
              (record d { buf_read_pos = u64 (d.buf_read_pos + k) })
              (record v { ustar = u }),
        ))
unfolding vfs_read with_mount
vfs_read_from fd buf nbytes k v u mount in_use mounted reads result =
    rw (ne→== (v.vfs_opened_files fd).fs_file_id minus_one in_use)
      (rw (mounted, with_mount) (rw reads (rw result refl)))

bytes_there_within : (nbytes pos size : ℕ) → pos ≤ size → pos + bytes_there nbytes pos size ≤ size
unfolding bytes_there
bytes_there_within nbytes pos size h = ground arith

pub bytes_there_most : (nbytes pos size : ℕ) → bytes_there nbytes pos size ≤ nbytes
unfolding bytes_there
bytes_there_most nbytes pos size = ground arith

-- On an open file of the archive, where file offsets fit 64 bits, `vfs_read` returns how many bytes
-- there are of those asked for, copies so many from the descriptor's position to the buffer, and
-- moves the position on by so many, which keeps it within the file.
pub vfs_read-Advances :
    (fd buf nbytes pos : ℕ) (v : Vfs) (file : TarFile)
    → IsReading v fd file pos
    → pos + nbytes < 2 ^ 64
    → Advances v fd buf nbytes file pos (bytes_there nbytes pos file.size)
vfs_read-Advances fd buf nbytes pos v file r fits = elim (ℕ_discrete k 0) [
  | yes z ↦ record {
    left = record v { ustar = u };
    returns = called ∙ rw (eq→== k 0 z) (ap (λ (n : ℕ). ok (n, record v { ustar = u })) (sym z));
    memory = refl;
    reading = record {
      mount = r.mount;
      mounted = r.mounted;
      reads = r.reads;
      in_use = r.in_use;
      opened = r.opened;
      at = omega (arith, r.at, z);
      inside = within;
    };
  }
  | no some_bytes ↦ record {
    left = moved;
    returns = called ∙ rw (ne→== k 0 some_bytes) refl;
    memory = refl;
    reading = record {
      mount = r.mount;
      mounted = rw (eq→== fd fd refl) r.mounted;
      reads = r.reads;
      in_use = rw (eq→== fd fd refl) r.in_use;
      opened = rw (eq→== fd fd refl) r.opened;
      at = rw (eq→== fd fd refl) position;
      inside = within;
    };
  }
]
  where
    k : ℕ
    k = bytes_there nbytes pos file.size

    u : Ustar
    u = record v.ustar { mem = memcpy v.ustar.mem buf (file.header + 512 + pos) k }

    d : FileDescriptor
    d = v.vfs_opened_files fd

    moved : Vfs
    moved =
        set_descriptor fd (record d { buf_read_pos = u64 (d.buf_read_pos + k) })
          (record v { ustar = u })

    read : ustar_read d.fs_file_id buf nbytes d.buf_read_pos v.ustar ≡ (k, u)
    read =
        rw r.at (ustar_read-memcpy d.fs_file_id buf nbytes pos v.ustar file r.opened r.inside fits)

    called :
        vfs_read fd buf nbytes v
        ≡ (if k == 0 then ok (0, record v { ustar = u }) else ok (k, moved))
    called = vfs_read_from fd buf nbytes k v u r.mount r.in_use r.mounted r.reads read

    position : u64 (d.buf_read_pos + k) ≡ pos + k
    position = omega (arith, r.at, fits, bytes_there_most nbytes pos file.size)

    within : pos + k ≤ file.size
    within = bytes_there_within nbytes pos file.size r.inside
