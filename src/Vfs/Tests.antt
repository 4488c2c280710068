-- ===== src/Vfs/Tests.antt =====
-- Tests of the virtual file system.
use mmd_os.Base.{ℕ, ◌≡◌, ◌≢◌, refl, arith, if◌then◌else◌, ◌==◌, none, some, ok, panicked}
use mmd_os.Ustar.{TarFile}
use mmd_os.Vfs.{Vfs, Mount, Operations, ustar_operations, vfs_close, free_cell}
use mmd_os.Vfs.Closing.{IsClosed, vfs_close-IsClosed}

abbrev nothing : Operations
nothing = record {
  open_file = λ path flags u. panicked;
  close = λ file u. panicked;
  read = λ file buf nbytes offset u. (0, u);
  write = λ file buf nbytes u. panicked;
  get_file_size = λ file u. panicked;
}

abbrev root : Mount
root = record {
  id = 1;
  fs_type = 7001;
  mountpoint = 7033;
  device = 0;
  operations = ustar_operations 4 400 nothing;
}

abbrev five_bytes : TarFile
five_bytes = record { header = 4096; references = 1; size = 5 }

-- The archive's first file is open at descriptor 0.
abbrev opened : Vfs
opened = record {
  ustar = record { mem = λ q. 33; tar_fs_start_address = 4096; open_files = λ i. some five_bytes };
  next_mountpoint_id = 2;
  mounted_devices = λ i. if i == 0 then some root else none;
  mounted_devices_num = 1;
  vfs_opened_files = λ i. record {
    fs_file_id = 0;
    mountpoint_id = 1;
    buf_read_pos = 0;
    buf_write_pos = 0;
    file_size = 5;
  };
}

-- Its cell counts as free, since the archive numbers its files from 0.
counts_as_free : free_cell 512 0 opened ≡ some 0
unfolding free_cell
counts_as_free = refl

vfs_close-IsClosed_example :
    (v' : Vfs) × (vfs_close 0 opened ≡ ok (0, v'))
    × IsClosed v' 0
    × ((i : ℕ) → i ≢ 0 → v'.vfs_opened_files i ≡ opened.vfs_opened_files i)
vfs_close-IsClosed_example =
    vfs_close-IsClosed 0 opened root five_bytes (omega arith) refl refl refl
