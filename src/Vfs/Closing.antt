-- ===== src/Vfs/Closing.antt =====
-- vfs_close of kernel/fs/vfs.c, and what the other calls do with a descriptor after it.
use mmd_os.Base.{
  ℕ, ◌+◌, ◌-◌, ◌^◌, ◌≡◌, ◌≢◌, refl, sym, ap, ◌∙◌, ltb, ne→==, eq→==, Bool-cases, inl, inr, none,
  some, u16, ok,
}
use mmd_os.Ustar.{Ustar, TarFile, minus_one, set_file, ustar_close}
use mmd_os.Vfs.{
  Vfs, Mount, set_descriptor, get_mountpoint_by_id, with_mount, vfs_close, vfs_read, vfs_write,
}

-- Closing an open file of the archive leaves the file system's state and returns 0.
ustar_close_returns :
    (id : ℕ) (u : Ustar) (file : TarFile)
    → u.open_files id ≡ some file
    → (u' : Ustar) × (ustar_close id u ≡ ok (0, u'))
unfolding ustar_close
ustar_close_returns id u file e = elim (Bool-cases (ltb (u16 (file.references + 2 ^ 16 - 1)) 1)) [
  | inl last ↦ (set_file id none u, rw (e, ustar_close) (rw last refl))
  | inr shared ↦ (
    set_file id (some (record file { references = u16 (file.references + 2 ^ 16 - 1) })) u,
    rw (e, ustar_close) (rw shared refl),
  )
]

vfs_close_from :
    (fd : ℕ) (v : Vfs) (u : Ustar) (mount : Mount)
    → (v.vfs_opened_files fd).fs_file_id ≢ minus_one
    → get_mountpoint_by_id (v.vfs_opened_files fd).mountpoint_id v ≡ some mount
    → mount.operations.close (v.vfs_opened_files fd).fs_file_id v.ustar ≡ ok (0, u)
    → vfs_close fd v
      ≡ ok (
        0,
        set_descriptor fd
            (record (v.vfs_opened_files fd) { fs_file_id = minus_one })
            (record v { ustar = u }),
      )
unfolding vfs_close with_mount
vfs_close_from fd v u mount in_use mounted closed =
    rw (ne→== (v.vfs_opened_files fd).fs_file_id minus_one in_use)
      (rw (mounted, with_mount) (rw closed refl))

-- A descriptor that is closed.
pub record IsClosed (v : Vfs) (fd : ℕ) : Type 0 where
  pub reads : (buf nbytes : ℕ) → vfs_read fd buf nbytes v ≡ ok (0, v)
  pub writes : (buf nbytes : ℕ) → vfs_write fd buf nbytes v ≡ ok (minus_one, v)
  pub closes : vfs_close fd v ≡ ok (0, v)

minus_one-IsClosed :
    (fd : ℕ) (v : Vfs) → (v.vfs_opened_files fd).fs_file_id ≡ minus_one → IsClosed v fd
unfolding vfs_read vfs_write vfs_close
minus_one-IsClosed fd v e = record {
  reads = λ buf nbytes. rw e refl;
  writes = λ buf nbytes. rw e refl;
  closes = rw e refl;
}

-- For a descriptor in use whose mount point is there and closes as the archive does, and whose file
-- is open in the archive, `vfs_close` returns 0. Afterwards reading from the descriptor returns 0,
-- writing to it -1 and closing it 0, and none of these changes anything; other descriptors are as
-- before.
pub vfs_close-IsClosed :
    (fd : ℕ) (v : Vfs) (mount : Mount) (file : TarFile)
    → (v.vfs_opened_files fd).fs_file_id ≢ minus_one
    → get_mountpoint_by_id (v.vfs_opened_files fd).mountpoint_id v ≡ some mount
    → mount.operations.close ≡ ustar_close
    → v.ustar.open_files (v.vfs_opened_files fd).fs_file_id ≡ some file
    → (v' : Vfs) × (vfs_close fd v ≡ ok (0, v'))
      × IsClosed v' fd
      × ((i : ℕ) → i ≢ fd → v'.vfs_opened_files i ≡ v.vfs_opened_files i)
vfs_close-IsClosed fd v mount file in_use mounted closes opened =
    let (u, closed) = ustar_close_returns (v.vfs_opened_files fd).fs_file_id v.ustar file opened in
    let v' =
      set_descriptor fd (record (v.vfs_opened_files fd) { fs_file_id = minus_one })
        (record v { ustar = u }) in
    (
      v',
      vfs_close_from fd v u mount in_use mounted
          (ap (λ f. f (v.vfs_opened_files fd).fs_file_id v.ustar) closes ∙ closed),
      minus_one-IsClosed fd v' (rw (eq→== fd fd refl) refl),
      λ i k. rw (ne→== fd i (λ e. k (sym e))) refl,
    )
