-- ===== src/Ustar/Files.antt =====
-- Opening and closing a file of the archive: ustar_open and ustar_close of kernel/fs/ustar.c.
use mmd_os.Base.{
  ℕ, ◌+◌, ◌≤◌, ◌<◌, ◌≡◌, ◌≢◌, ◌⊎◌, refl, sym, ap, ◌∙◌, arith, ne→==, eq→==, ℕ_discrete, List,
  length, none, some, ok,
}
use mmd_os.Memory.{Memory}
use mmd_os.Octal.Digits.{octal}
use mmd_os.Ustar.{
  Ustar, TarFile, minus_one, null, file_size, set_file, is_already_open, free_from, find_open_id,
  new_file, tar_file_lookup, size_of, ustar_open, ustar_close,
}
use mmd_os.Ustar.Names.{IsApart}
use mmd_os.Ustar.Lookup.{
  IsArchive, first_named, size_of-octal, first_named-IsOctal, lookup_from-Finds,
}
use mmd_os.Ustar.NotOpen.{IsFirstFree, free_from-first, NoPrefixes, open_from-NotOpen}

new_file-opens :
    (header id size : ℕ) (u : Ustar)
    → IsFirstFree u id
    → size_of u.mem header ≡ ok size
    → new_file header u
      ≡ ok (id, set_file id (some (record { header = header; references = 1; size = size })) u)
unfolding new_file find_open_id
new_file-opens header id size u free e =
    rw slot (rw (ne→== id minus_one (omega (arith, free.below))) (rw e refl))
  where
    slot : free_from 512 0 u ≡ id
    slot = free_from-first 512 0 id u (omega arith) (omega (arith, free.below)) free.free free.taken

-- What `ustar_open` of `path` needs: an archive as `tar_file_lookup` needs it, in which `header`, not
-- NULL, is the first that is compared by the path, which is not empty; no open file whose header has
-- a prefix; and a free cell, of which `id` is the first.
pub record IsOpenable (tar path id header : ℕ) (headers : List ℕ) (u : Ustar) : Type 0 where
  pub apart : IsApart tar 256 path 256
  pub bare : NoPrefixes tar u
  pub named : u.mem path ≢ 0
  pub archive : IsArchive tar u.mem u.tar_fs_start_address headers
  pub first : first_named u.mem path headers ≡ header
  pub there : header ≢ null
  pub free : IsFirstFree u id

-- Where the path is openable, and with fuel for 3 rounds more than the archive has headers,
-- `ustar_open` returns the first free cell. In that cell is then a descriptor of the header with one
-- reference and the size that the header's digits spell. The other cells are kept, and memory outside
-- the local array.
pub ustar_open-opens :
    (tar path id header : ℕ) (headers : List ℕ) (fuel : ℕ) (u : Ustar)
    → IsOpenable tar path id header headers u
    → length headers + 3 ≤ fuel
    → (m : Memory) × (ustar_open fuel tar path u
        ≡ ok (
          id,
          set_file id
              (some (record {
                header = header;
                references = 1;
                size = octal u.mem (file_size header + 1) 10;
              }))
              (record u { mem = m }),
        ))
      × ((q : ℕ) → (q < tar) ⊎ (tar + 256 ≤ q) → m q ≡ u.mem q)
unfolding ustar_open is_already_open tar_file_lookup
ustar_open-opens tar path id header headers fuel u o enough =
    let closed = open_from-NotOpen tar path o.apart 512 0 u o.bare o.named in
    let start = u.tar_fs_start_address in
    let found =
      lookup_from-Finds tar path u.mem o.apart headers fuel start closed.left o.archive closed.kept
        enough in
    let (apart, digits) =
      first_named-IsOctal tar path start u.mem headers o.archive (λ z. o.there (sym o.first ∙ z)) in
    let still = λ (q : ℕ) (h : header ≤ q) (k : q < header + 512).
      found.kept q (ground (arith, rw o.first at apart)) in
    let size = size_of-octal header u.mem found.left still (rw o.first at digits) in
    let opened =
      new_file-opens header id (octal u.mem (file_size header + 1) 10)
        (record u { mem = found.left })
        (record { below = o.free.below; free = o.free.free; taken = o.free.taken }) size in
    (
      found.left,
      rw closed.returns
          (rw (found.returns, tar_file_lookup) (rw o.first (rw (ne→== header 0 o.there) opened))),
      found.kept,
    )

ustar_close_last :
    (id : ℕ) (u : Ustar) (file : TarFile)
    → u.open_files id ≡ some file
    → file.references ≡ 1
    → ustar_close id u ≡ ok (0, set_file id none u)
unfolding ustar_close
ustar_close_last id u file e one = rw (e, ustar_close) (rw one refl)

-- Where the path is openable, and with fuel for 3 rounds more than the archive has headers, closing
-- what `ustar_open` returns succeeds, and leaves every cell as it was before.
pub ustar_close-ustar_open :
    (tar path id header : ℕ) (headers : List ℕ) (fuel : ℕ) (u : Ustar)
    → IsOpenable tar path id header headers u
    → length headers + 3 ≤ fuel
    → (u' : Ustar) × (u'' : Ustar) × (ustar_open fuel tar path u ≡ ok (id, u'))
      × (ustar_close id u' ≡ ok (0, u''))
      × ((i : ℕ) → u''.open_files i ≡ u.open_files i)
ustar_close-ustar_open tar path id header headers fuel u o enough =
    let (m, opened, kept) = ustar_open-opens tar path id header headers fuel u o enough in
    let file : TarFile = record {
      header = header;
      references = 1;
      size = octal u.mem (file_size header + 1) 10;
    } in
    let u' : Ustar = set_file id (some file) (record u { mem = m }) in
    (
      u',
      set_file id none u',
      opened,
      ustar_close_last id u' file (rw (eq→== id id refl) refl) refl,
      λ i. elim (ℕ_discrete id i) [
        | yes e ↦ rw (eq→== id i e) (sym o.free.free ∙ ap u.open_files e)
        | no k ↦ rw (ne→== id i k) refl
      ],
    )
