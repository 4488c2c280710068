-- ===== src/Vmm.antt =====
-- Page tables: kernel/mm/vmm.c over the memory and the pages of kernel/mm/pmm.c. A table stands in
-- memory as 512 words of 64 bits, reached through the direct map.
mod Tests
pub mod Entry
pub mod Walk
pub mod Change
pub mod Translate
pub mod Missing
use mmd_os.Base.{
  ℕ, zero, suc, ◌+◌, ◌-◌, ◌*◌, ◌/◌, ◌^◌, Bool, true, false, if◌then◌else◌, not, ltb, ◌==◌, ◌!=◌,
  bit_and, bit_or, u64, sub64, Outcome, ok, ◌>>=◌,
}
use mmd_os.Spinlock.{acquire, release}
use mmd_os.Memory.Words.{read64, write64}
use mmd_os.Pmm.{Pmm, pmm_alloc}

abbrev pub pte_present : ℕ
pte_present = 1

abbrev pub pte_writable : ℕ
pte_writable = 2

abbrev pub pte_no_execute : ℕ
pte_no_execute = 2 ^ 63

abbrev pub pte_addr : ℕ
pte_addr = 0x000ffffffffff000

abbrev pub pte_get_addr : ℕ → ℕ
pte_get_addr pte = bit_and pte pte_addr

-- `vmm_t`; its arena belongs to the heap.
pub record Vmm : Type 0 where
  pub lock : ℕ
  pub pml : ℕ

-- `(virt & (NINE_BITS << shift)) >> shift`
abbrev pub lvl_offset : ℕ → ℕ → ℕ
lvl_offset shift virt = bit_and virt (0x1ff * 2 ^ shift) / 2 ^ shift

-- `&pte[offset]`
abbrev pub slot : ℕ → ℕ → ℕ
slot pte offset = u64 (pte + 8 * offset)

abbrev pub is_present : ℕ → Bool
is_present pte = bit_and pte pte_present != 0

abbrev pub put_entry : Pmm → ℕ → ℕ → Pmm
put_entry s at pte = record s { mem = write64 s.mem at pte }

-- The address 0 is NULL.
unfoldable pub walk_pte : ℕ → ℕ → Bool → Pmm → Outcome (ℕ × Pmm)
walk_pte pte offset alloc s =
    if is_present (read64 s.mem (slot pte offset))
    then ok (u64 (pte_get_addr (read64 s.mem (slot pte offset)) + s.hhdm_offset), s)
    else if not alloc
    then ok (0, s)
    else pmm_alloc 1 s >>= λ r. ok (
      u64 (r.0 + r.1.hhdm_offset),
      put_entry r.1 (slot pte offset) (bit_or (bit_or r.0 pte_present) pte_writable),
    )

-- What follows a step of the walk, unless the step gave NULL.
abbrev pub then_walk : (ℕ → Pmm → Outcome (ℕ × Pmm)) → ℕ × Pmm → Outcome (ℕ × Pmm)
then_walk next r = if r.0 == 0 then ok r else next r.0 r.1

-- The three steps from the root to the table of level 1, or NULL.
unfoldable pub walk_to_lvl1 : ℕ → ℕ → Bool → Pmm → Outcome (ℕ × Pmm)
walk_to_lvl1 pml virt alloc s =
    walk_pte pml (lvl_offset 39 virt) alloc s
    >>= then_walk λ lvl3 s3.
      walk_pte lvl3 (lvl_offset 30 virt) alloc s3
      >>= then_walk λ lvl2 s2. walk_pte lvl2 (lvl_offset 21 virt) alloc s2

-- What `vmm_map_page` does with the table of level 1.
abbrev pub map_entry : ℕ → ℕ → ℕ → ℕ × Pmm → Bool × Pmm
map_entry virt physical flags r =
    let at = slot r.0 (lvl_offset 12 virt) in
    if r.0 == 0
    then (false, r.1)
    else if is_present (read64 r.1.mem at)
    then (true, r.1)
    else (true, put_entry r.1 at (bit_or physical flags))

unfoldable pub vmm_map_page : Vmm → ℕ → ℕ → ℕ → Pmm → Outcome (Bool × Vmm × Pmm)
vmm_map_page vmm virt physical flags s = do
  held ← acquire vmm.lock
  r ← walk_to_lvl1 vmm.pml virt true s
  let done = map_entry virt physical flags r in
      ok (done.0, record vmm { lock = release held }, done.1)

-- What `vmm_unmap_page` and `vmm_change_flag` do with it: an entry that is not present is a failure.
abbrev pub change_entry : ℕ → (ℕ → ℕ) → ℕ × Pmm → Bool × Pmm
change_entry virt change r =
    let at = slot r.0 (lvl_offset 12 virt) in
    if r.0 == 0
    then (false, r.1)
    else if not (is_present (read64 r.1.mem at))
    then (false, r.1)
    else (true, put_entry r.1 at (change (read64 r.1.mem at)))

abbrev pub lock_if : Bool → Vmm → Outcome Vmm
lock_if lock vmm =
    if lock then (acquire vmm.lock >>= λ held. ok (record vmm { lock = held })) else ok vmm

abbrev pub unlock_if : Bool → Vmm → Vmm
unlock_if lock vmm = if lock then record vmm { lock = release vmm.lock } else vmm

unfoldable pub vmm_unmap_page : Vmm → ℕ → Bool → Pmm → Outcome (Bool × Vmm × Pmm)
vmm_unmap_page vmm virt lock s = do
  held ← lock_if lock vmm
  r ← walk_to_lvl1 held.pml virt false s
  let done = change_entry virt (λ _. 0) r in ok (done.0, unlock_if lock held, done.1)

unfoldable pub vmm_change_flag : Vmm → ℕ → ℕ → Bool → Pmm → Outcome (Bool × Vmm × Pmm)
vmm_change_flag vmm virt flags lock s = do
  held ← lock_if lock vmm
  r ← walk_to_lvl1 held.pml virt true s
  let done = change_entry virt (λ pte. bit_or (pte_get_addr pte) flags) r in
      ok (done.0, unlock_if lock held, done.1)

-- The source does not look at its argument `alloc`, and walks with `true`.
unfoldable pub vmm_virt2pte : Vmm → ℕ → Bool → Pmm → Outcome (ℕ × Pmm)
vmm_virt2pte vmm virt alloc s = do
  r ← walk_to_lvl1 vmm.pml virt true s
  ok (if r.0 == 0 then r else (slot r.0 (lvl_offset 12 virt), r.1))

unfoldable pub vmm_virt2phys : Vmm → ℕ → Bool → Pmm → Outcome (ℕ × Pmm)
vmm_virt2phys vmm virt alloc s = do
  r ← vmm_virt2pte vmm virt alloc s
  ok (if r.0 == 0 then (0, r.1) else (pte_get_addr (read64 r.1.mem r.0), r.1))
