-- ===== src/Vmm/Translate.antt =====
-- What vmm_virt2phys of kernel/mm/vmm.c answers after a map, an unmap and a change of flags.
use mmd_os.Base.{
  ℕ, ◌+◌, ◌*◌, ◌/◌, ◌%◌, ◌^◌, ◌≤◌, ◌<◌, ◌≡◌, ◌≢◌, refl, ap, ◌∙◌, ◌⊎◌, inl, inr, arith, Bool, true,
  false, if◌then◌else◌, Bool-cases, bit_or, Outcome, ok, ◌>>=◌,
}
use mmd_os.Memory.Words.{read64-other}
use mmd_os.Pmm.{Pmm}
use mmd_os.Vmm.{
  Vmm, pte_get_addr, lvl_offset, is_present, put_entry, vmm_map_page, vmm_unmap_page,
  vmm_change_flag, vmm_virt2phys,
}
use mmd_os.Vmm.Entry.{
  AreFlags, addr-or_flags, or_flags, or_flags-fits, present-or_flags, get_addr_lem,
}
use mmd_os.Vmm.Walk.{Walked, last, offset-lt, Walked-put_entry}
use mmd_os.Vmm.Change.{
  entry, virt2phys_lem, map_lem, unmap_lem, flag_lem, rewalked, entry-put_entry,
}

-- The lock of the tables as it is after an operation: free again.
abbrev pub unlocked : Vmm → Vmm
unlocked vmm = record vmm { lock = 0 }

-- Where the tables of `virt` are present, each a page, the last none of the others, and its own
-- entry is not present, mapping it to a page below 2^52 with flags that are none of the address bits
-- and have the present bit, returns true. From there `vmm_virt2phys` gives that page, and mapping
-- the address once more to whatever returns true and changes nothing. The lock is free before and
-- after.
pub vmm_map_page_translates :
    (s : Pmm) (vmm : Vmm) (virt lvl1 page flags physical' flags' : ℕ) (alloc : Bool)
    → Walked s vmm.pml virt lvl1
    → vmm.lock ≡ 0
    → is_present (entry s virt lvl1) ≡ false
    → page < 2 ^ 40
    → AreFlags flags
    → is_present flags ≡ true
    → (s' : Pmm) × (vmm_map_page vmm virt (page * 4096) flags s ≡ ok (true, unlocked vmm, s'))
      × (vmm_virt2phys (unlocked vmm) virt alloc s' ≡ ok (page * 4096, s'))
      × (vmm_map_page (unlocked vmm) virt physical' flags' s' ≡ ok (true, unlocked vmm, s'))
vmm_map_page_translates s vmm virt lvl1 page flags physical' flags' alloc w free absent h f p = (
  mapped,
  (map_lem s vmm virt lvl1 w (page * 4096) flags free ∙ rw absent refl),
  (virt2phys_lem mapped (unlocked vmm) virt lvl1 w' alloc ∙ ap (λ x. ok (x, mapped)) address),
  (map_lem mapped (unlocked vmm) virt lvl1 w' physical' flags' refl ∙ rw present refl),
)
  where
    pte : ℕ
    pte = bit_or (page * 4096) flags

    mapped : Pmm
    mapped = put_entry s (last virt lvl1) pte

    w' : Walked mapped vmm.pml virt lvl1
    w' = rewalked s vmm virt lvl1 w pte

    stored : entry mapped virt lvl1 ≡ pte
    stored = entry-put_entry s vmm virt lvl1 w pte (or_flags-fits page flags h f)

    address : pte_get_addr (entry mapped virt lvl1) ≡ page * 4096
    address = ap pte_get_addr stored ∙ addr-or_flags page flags h f

    present : is_present (entry mapped virt lvl1) ≡ true
    present = ap is_present stored ∙ present-or_flags page flags h f ∙ p

-- Where the tables of `virt`, each a page, the last none of the others, and its own entry are
-- present, unmapping it returns true. From there `vmm_virt2phys` gives 0, and unmapping it once more
-- returns false and changes nothing. The lock is free before and after, whether or not the calls
-- take it.
pub vmm_unmap_page_forgets :
    (s : Pmm) (vmm : Vmm) (virt lvl1 : ℕ) (lock lock' alloc : Bool)
    → Walked s vmm.pml virt lvl1
    → vmm.lock ≡ 0
    → is_present (entry s virt lvl1) ≡ true
    → (s' : Pmm) × (vmm_unmap_page vmm virt lock s ≡ ok (true, unlocked vmm, s'))
      × (vmm_virt2phys (unlocked vmm) virt alloc s' ≡ ok (0, s'))
      × (vmm_unmap_page (unlocked vmm) virt lock' s' ≡ ok (false, unlocked vmm, s'))
vmm_unmap_page_forgets s vmm virt lvl1 lock lock' alloc w free present = (
  cleared,
  (unmap_lem s vmm virt lvl1 w lock free ∙ rw present refl),
  (virt2phys_lem cleared (unlocked vmm) virt lvl1 w' alloc
      ∙ ap (λ x. ok (pte_get_addr x, cleared)) stored),
  (unmap_lem cleared (unlocked vmm) virt lvl1 w' lock' refl ∙ rw (ap is_present stored) refl),
)
  where
    cleared : Pmm
    cleared = put_entry s (last virt lvl1) 0

    w' : Walked cleared vmm.pml virt lvl1
    w' = rewalked s vmm virt lvl1 w 0

    stored : entry cleared virt lvl1 ≡ 0
    stored = entry-put_entry s vmm virt lvl1 w 0 (omega arith)

-- Where the tables of `virt`, each a page, the last none of the others, and its own entry are
-- present, changing its flags, to flags that are none of the address bits, returns true. From there
-- the entry holds the old address and the new flags, added up, and `vmm_virt2phys` answers what it
-- answered before. The lock is free before and after, whether or not the call takes it.
pub vmm_change_flag_keeps :
    (s : Pmm) (vmm : Vmm) (virt lvl1 flags : ℕ) (lock alloc : Bool)
    → Walked s vmm.pml virt lvl1
    → vmm.lock ≡ 0
    → is_present (entry s virt lvl1) ≡ true
    → AreFlags flags
    → (address : ℕ) × (s' : Pmm) × (vmm_virt2phys vmm virt alloc s ≡ ok (address, s))
      × (vmm_change_flag vmm virt flags lock s ≡ ok (true, unlocked vmm, s'))
      × (vmm_virt2phys (unlocked vmm) virt alloc s' ≡ ok (address, s'))
      × (entry s' virt lvl1 ≡ address + flags)
vmm_change_flag_keeps s vmm virt lvl1 flags lock alloc w free present f = (
  page * 4096,
  flagged,
  (virt2phys_lem s vmm virt lvl1 w alloc ∙ ap (λ x. ok (x, s)) (get_addr_lem old)),
  (flag_lem s vmm virt lvl1 w flags lock free
      ∙ rw present (
          ap (λ x. ok (true, unlocked vmm, put_entry s (last virt lvl1) (bit_or x flags)))
            (get_addr_lem old))),
  (virt2phys_lem flagged (unlocked vmm) virt lvl1 w' alloc
      ∙ ap (λ x. ok (x, flagged)) (ap pte_get_addr stored ∙ addr-or_flags page flags small f)),
  stored ∙ or_flags page flags small f,
)
  where
    old : ℕ
    old = entry s virt lvl1

    page : ℕ
    page = old / 4096 % 2 ^ 40

    small : page < 2 ^ 40
    small = omega arith

    flagged : Pmm
    flagged = put_entry s (last virt lvl1) (bit_or (page * 4096) flags)

    w' : Walked flagged vmm.pml virt lvl1
    w' = rewalked s vmm virt lvl1 w (bit_or (page * 4096) flags)

    stored : entry flagged virt lvl1 ≡ bit_or (page * 4096) flags
    stored =
        entry-put_entry s vmm virt lvl1 w (bit_or (page * 4096) flags)
          (or_flags-fits page flags small f)

-- Where the tables of two addresses are present, each a page, the last one on each way none of the
-- others of both, and their entries do not overlap, with the lock free, mapping, unmapping and
-- changing the flags of the first leaves what `vmm_virt2phys` answers for the second.
pub other_address_kept :
    (s : Pmm) (vmm : Vmm) (virt lvl1 other lvl1' physical flags : ℕ) (lock alloc : Bool)
    → Walked s vmm.pml virt lvl1
    → (w' : Walked s vmm.pml other lvl1') → vmm.lock ≡ 0
    → (lvl1 ≢ vmm.pml) × (lvl1 ≢ w'.lvl3) × (lvl1 ≢ w'.lvl2)
    → (last virt lvl1 + 8 ≤ last other lvl1') ⊎ (last other lvl1' + 8 ≤ last virt lvl1)
    → (address : ℕ) × (vmm_virt2phys vmm other alloc s ≡ ok (address, s))
      × ((vmm_map_page vmm virt physical flags s >>= λ r.
            vmm_virt2phys r.1 other alloc r.2 >>= λ a. ok (a.0))
          ≡ ok address)
      × ((vmm_unmap_page vmm virt lock s >>= λ r.
            vmm_virt2phys r.1 other alloc r.2 >>= λ a. ok (a.0))
          ≡ ok address)
      × ((vmm_change_flag vmm virt flags lock s >>= λ r.
            vmm_virt2phys r.1 other alloc r.2 >>= λ a. ok (a.0))
          ≡ ok address)
other_address_kept s vmm virt lvl1 other lvl1' physical flags lock alloc w w' free differ apart = (
  address,
  virt2phys_lem s vmm other lvl1' w' alloc,
  rw (map_lem s vmm virt lvl1 w physical flags free)
      (elim (Bool-cases (is_present (entry s virt lvl1))) [
        | inl p ↦ rw p same
        | inr p ↦ rw p (kept (bit_or physical flags))
      ]),
  rw (unmap_lem s vmm virt lvl1 w lock free) (either 0),
  rw (flag_lem s vmm virt lvl1 w flags lock free)
      (either (bit_or (pte_get_addr (entry s virt lvl1)) flags)),
)
  where
    address : ℕ
    address = pte_get_addr (entry s other lvl1')

    answer : Pmm → Outcome ℕ
    answer s' = vmm_virt2phys (unlocked vmm) other alloc s' >>= λ a. ok (a.0)

    same : answer s ≡ ok address
    same = ap (λ r. r >>= λ a. ok (a.0)) (virt2phys_lem s (unlocked vmm) other lvl1' w' alloc)

    swap : {A B : Type 0} → A ⊎ B → B ⊎ A
    swap (inl a) = inr a
    swap (inr b) = inl b

    kept : (pte : ℕ) → answer (put_entry s (last virt lvl1) pte) ≡ ok address
    kept pte =
        ap (λ r. r >>= λ a. ok (a.0))
          (virt2phys_lem (put_entry s (last virt lvl1) pte) (unlocked vmm) other lvl1'
            (Walked-put_entry s vmm.pml other lvl1' lvl1 (lvl_offset 12 virt) pte w.tables.3
              (offset-lt 12 virt) w' differ.0 differ.1 differ.2)
            alloc)
        ∙ ap (λ x. ok (pte_get_addr x))
            (read64-other s.mem (last virt lvl1) pte (last other lvl1') (swap apart))

    either :
        (pte : ℕ)
        → answer (if is_present (entry s virt lvl1) then put_entry s (last virt lvl1) pte else s)
          ≡ ok address
    either pte = elim (Bool-cases (is_present (entry s virt lvl1))) [
      | inl p ↦ rw p (kept pte)
      | inr p ↦ rw p same
    ]
