-- ===== src/Vmm/Change.antt =====
-- Map, unmap, change of flags and translation (kernel/mm/vmm.c) at an address whose tables are
-- present.
use mmd_os.Base.{
  ℕ, ◌^◌, ◌<◌, ◌≡◌, ◌≢◌, refl, ap, inl, inr, arith, Bool, true, false, ne→==, Bool-cases,
  if◌then◌else◌, bit_or, Outcome, ok, ◌>>=◌,
}
use mmd_os.Memory.Words.{read64, read64-write64}
use mmd_os.Spinlock.{acquire, release, test_and_acq}
use mmd_os.Pmm.{Pmm}
use mmd_os.Vmm.{
  Vmm, pte_get_addr, lvl_offset, is_present, put_entry, change_entry, lock_if, unlock_if,
  walk_to_lvl1, vmm_map_page, vmm_unmap_page, vmm_change_flag, vmm_virt2pte, vmm_virt2phys,
}
use mmd_os.Vmm.Walk.{Walked, last, offset-lt, slot_lem, walk_to_lvl1_present, Walked-put_entry}

-- The entry of `virt`.
abbrev pub entry : Pmm → ℕ → ℕ → ℕ
entry s virt lvl1 = read64 s.mem (last virt lvl1)

module _ (s : Pmm) (vmm : Vmm) (virt lvl1 : ℕ) (w : Walked s vmm.pml virt lvl1) where
  pub not_null : lvl1 ≢ 0
  not_null = w.step1.not_null

  -- The entry's own slot is not at address 0.
  pub slot_not_null : last virt lvl1 ≢ 0
  slot_not_null =
      rw (slot_lem lvl1 (lvl_offset 12 virt) w.tables.3 (offset-lt 12 virt))
        (omega (arith, not_null))

  pub virt2phys_lem :
      (alloc : Bool) → vmm_virt2phys vmm virt alloc s ≡ ok (pte_get_addr (entry s virt lvl1), s)
  unfolding vmm_virt2phys vmm_virt2pte
  virt2phys_lem alloc =
      rw (walk_to_lvl1_present s vmm.pml virt lvl1 true w)
        (rw (ne→== lvl1 0 not_null) (rw (ne→== (last virt lvl1) 0 slot_not_null) refl))

  pub map_lem :
      (physical flags : ℕ)
      → vmm.lock ≡ 0
      → vmm_map_page vmm virt physical flags s
        ≡ ok (
          true,
          record vmm { lock = 0 },
          if is_present (entry s virt lvl1)
              then s
              else put_entry s (last virt lvl1) (bit_or physical flags),
        )
  unfolding vmm_map_page acquire release test_and_acq
  map_lem physical flags free = rw free (
      rw (walk_to_lvl1_present s vmm.pml virt lvl1 true w) (
        rw (ne→== lvl1 0 not_null) (elim (Bool-cases (is_present (entry s virt lvl1))) [
          | inl p ↦ rw p refl
          | inr p ↦ rw p refl
        ])))

  -- Unmap and change of flags have one shape: the entry is replaced when it is present.
  abbrev changed : Bool → Bool → (ℕ → ℕ) → Outcome (Bool × Vmm × Pmm)
  changed lock alloc change = do
    held ← lock_if lock vmm
    r ← walk_to_lvl1 held.pml virt alloc s
    let done = change_entry virt change r in ok (done.0, unlock_if lock held, done.1)

  change_lem :
      (lock alloc : Bool) (change : ℕ → ℕ)
      → vmm.lock ≡ 0
      → changed lock alloc change
        ≡ ok (
          is_present (entry s virt lvl1),
          record vmm { lock = 0 },
          if is_present (entry s virt lvl1)
              then put_entry s (last virt lvl1) (change (entry s virt lvl1))
              else s,
        )
  unfolding acquire release test_and_acq
  change_lem true alloc change free = rw free (
      rw (walk_to_lvl1_present s vmm.pml virt lvl1 alloc w) (
        rw (ne→== lvl1 0 not_null) (elim (Bool-cases (is_present (entry s virt lvl1))) [
          | inl p ↦ rw p refl
          | inr p ↦ rw p refl
        ])))
  change_lem false alloc change free = rw (walk_to_lvl1_present s vmm.pml virt lvl1 alloc w) (
      rw (ne→== lvl1 0 not_null) (elim (Bool-cases (is_present (entry s virt lvl1))) [
        | inl p ↦ rw p (
            ap
              (λ l. ok (
                true,
                record vmm { lock = l },
                put_entry s (last virt lvl1) (change (entry s virt lvl1)),
              ))
              free)
        | inr p ↦ rw p (ap (λ l. ok (false, record vmm { lock = l }, s)) free)
      ]))

  pub unmap_lem :
      (lock : Bool)
      → vmm.lock ≡ 0
      → vmm_unmap_page vmm virt lock s
        ≡ ok (
          is_present (entry s virt lvl1),
          record vmm { lock = 0 },
          if is_present (entry s virt lvl1) then put_entry s (last virt lvl1) 0 else s,
        )
  unfolding vmm_unmap_page
  unmap_lem lock free = change_lem lock false (λ _. 0) free

  pub flag_lem :
      (flags : ℕ) (lock : Bool)
      → vmm.lock ≡ 0
      → vmm_change_flag vmm virt flags lock s
        ≡ ok (
          is_present (entry s virt lvl1),
          record vmm { lock = 0 },
          if is_present (entry s virt lvl1)
              then put_entry s (last virt lvl1) (bit_or (pte_get_addr (entry s virt lvl1)) flags)
              else s,
        )
  unfolding vmm_change_flag
  flag_lem flags lock free = change_lem lock true (λ pte. bit_or (pte_get_addr pte) flags) free

  -- The way is kept by a write to the entry.
  pub rewalked : (pte : ℕ) → Walked (put_entry s (last virt lvl1) pte) vmm.pml virt lvl1
  rewalked pte =
      Walked-put_entry s vmm.pml virt lvl1 lvl1 (lvl_offset 12 virt) pte w.tables.3
        (offset-lt 12 virt) w w.last_apart.0 w.last_apart.1 w.last_apart.2

  pub entry-put_entry :
      (pte : ℕ) → pte < 2 ^ 64 → entry (put_entry s (last virt lvl1) pte) virt lvl1 ≡ pte
  entry-put_entry pte h = read64-write64 s.mem (last virt lvl1) pte h
