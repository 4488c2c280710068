-- ===== src/Vfs/Paths.antt =====
-- The searches of vfs_open in kernel/fs/vfs.c: the mount point of a path, the rest of the path, a
-- free cell.
use mmd_os.Base.{
  ℕ, zero, suc, ◌+◌, ◌≤◌, ◌<◌, ◌≡◌, ◌≢◌, inl, inr, refl, ap, ◌∙◌, arith, if◌then◌else◌, ltb, ne→==,
  eq→==, Bool-cases, ℕ_discrete, Option, none, some, ok,
}
use mmd_os.Memory.{Memory}
use mmd_os.Strings.{kstrcpy}
use mmd_os.Vfs.{
  Vfs, Mount, set_memory, differ_from, longest_from, vfs_get_mountpoint, get_rel_path, free_cell,
}

-- The first `n` bytes at `p` and at `q` are the same, and the next are not.
pub record IsPrefix (m : Memory) (p q n : ℕ) : Type 0 where
  pub agree : (i : ℕ) → i < n → m (p + i) ≡ m (q + i)
  pub differ : m (p + n) ≢ m (q + n)

-- With fuel for one round more than the bytes that they share, the rest of the path.
pub get_rel_path-IsPrefix :
    (n fuel : ℕ) (m : Memory) (m_path path : ℕ)
    → IsPrefix m m_path path n
    → n < fuel
    → get_rel_path fuel m m_path path ≡ ok (path + n)
unfolding get_rel_path
get_rel_path-IsPrefix n zero m m_path path p h = absurd (omega arith)
get_rel_path-IsPrefix zero (suc fuel) m m_path path p h =
    rw (ne→== (m m_path) (m path) apart) (ap ok (omega arith))
  where
    apart : m m_path ≢ m path
    apart e = p.differ (ap m (omega arith) ∙ e ∙ ap m (omega arith))
get_rel_path-IsPrefix (suc n) (suc fuel) m m_path path p h = rw (eq→== (m m_path) (m path) first) (
    get_rel_path-IsPrefix n fuel m (m_path + 1) (path + 1) next (omega arith) ∙ ap ok (omega arith))
  where
    first : m m_path ≡ m path
    first = ap m (omega arith) ∙ p.agree 0 (omega arith) ∙ ap m (omega arith)

    next : IsPrefix m (m_path + 1) (path + 1) n
    next = record {
      agree = λ i k. ap m (omega arith) ∙ p.agree (suc i) (omega arith) ∙ ap m (omega arith);
      differ = λ e. p.differ (ap m (omega arith) ∙ e ∙ ap m (omega arith));
    }

pub free_cell-first :
    (n i id : ℕ) (v : Vfs)
    → i ≤ id
    → id < i + n
    → (v.vfs_opened_files id).fs_file_id ≡ 0
    → ((j : ℕ) → j < id → (v.vfs_opened_files j).fs_file_id ≢ 0)
    → free_cell n i v ≡ some id
unfolding free_cell
free_cell-first zero i id v low high free taken = absurd (omega arith)
free_cell-first (suc n) i id v low high free taken = elim (ℕ_discrete i id) [
  | yes e ↦ rw e (rw (eq→== (v.vfs_opened_files id).fs_file_id 0 free) refl)
  | no k ↦
      rw (ne→== (v.vfs_opened_files i).fs_file_id 0 (taken i (omega arith)))
        (free_cell-first n (i + 1) id v (omega arith) (omega arith) free taken)
]

-- One file system is mounted: whatever the path, it is the one that is found.
longest_from_one :
    (local path : ℕ) (v : Vfs) (mount : Mount)
    → v.mounted_devices 0 ≡ some mount
    → longest_from 1 0 0 0 local path v
      ≡ (0, set_memory (kstrcpy v.ustar.mem local mount.mountpoint 512) v)
unfolding longest_from
longest_from_one local path v mount e =
    rw (e, longest_from) (chosen (differ_from 512 v'.ustar.mem path local 0))
  where
    v' : Vfs
    v' = set_memory (kstrcpy v.ustar.mem local mount.mountpoint 512) v

    chosen :
        (d : Option ℕ)
        → ◌≡◌ {A = ℕ × Vfs}
            (elim d as (λ _. ℕ × Vfs) [
              | none ↦ (0, v')
              | some j ↦ if ltb 0 j then (0, v') else (0, v')
            ])
            (0, v')
    chosen none = refl
    chosen (some j) = elim (Bool-cases (ltb 0 j)) [ inl t ↦ rw t refl | inr f ↦ rw f refl ]

pub vfs_get_mountpoint_one :
    (local path : ℕ) (v : Vfs) (mount : Mount)
    → v.mounted_devices_num ≡ 1
    → v.mounted_devices 0 ≡ some mount
    → vfs_get_mountpoint local path v
      ≡ (some mount, set_memory (kstrcpy v.ustar.mem local mount.mountpoint 512) v)
unfolding vfs_get_mountpoint
vfs_get_mountpoint_one local path v mount one e = rw found (rw e refl)
  where
    found :
        longest_from v.mounted_devices_num 0 0 0 local path v
        ≡ (0, set_memory (kstrcpy v.ustar.mem local mount.mountpoint 512) v)
    found = ap (λ n. longest_from n 0 0 0 local path v) one ∙ longest_from_one local path v mount e
