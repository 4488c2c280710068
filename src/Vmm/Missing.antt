-- ===== src/Vmm/Missing.antt =====
-- Unmapping (kernel/mm/vmm.c) where a table on the way is missing.
use mmd_os.Base.{ℕ, ◌≡◌, refl, ap, ne→==, Bool, true, false, ok}
use mmd_os.Memory.Words.{read64}
use mmd_os.Spinlock.{acquire, release, test_and_acq}
use mmd_os.Pmm.{Pmm}
use mmd_os.Vmm.{Vmm, lvl_offset, slot, is_present, walk_pte, walk_to_lvl1, vmm_unmap_page}
use mmd_os.Vmm.Walk.{Leads, walk_pte_present}
use mmd_os.Vmm.Translate.{unlocked}

abbrev pub IsAbsent : Pmm → ℕ → ℕ → Type 0
IsAbsent s table offset = is_present (read64 s.mem (slot table offset)) ≡ false

-- The walk to the table of level 1 stops at the first, the second or the third step.
pub data Missing (s : Pmm) (pml virt : ℕ) : Type 0 where
  no_lvl3 : IsAbsent s pml (lvl_offset 39 virt) → Missing s pml virt
  no_lvl2 :
      (lvl3 : ℕ)
      → Leads s pml (lvl_offset 39 virt) lvl3
      → IsAbsent s lvl3 (lvl_offset 30 virt)
      → Missing s pml virt
  no_lvl1 :
      (lvl3 lvl2 : ℕ)
      → Leads s pml (lvl_offset 39 virt) lvl3
      → Leads s lvl3 (lvl_offset 30 virt) lvl2
      → IsAbsent s lvl2 (lvl_offset 21 virt)
      → Missing s pml virt

walk_pte_absent :
    (s : Pmm) (table offset : ℕ)
    → IsAbsent s table offset
    → walk_pte table offset false s ≡ ok (0, s)
unfolding walk_pte
walk_pte_absent s table offset a = rw a refl

walk_to_lvl1-Missing :
    (s : Pmm) (pml virt : ℕ) → Missing s pml virt → walk_to_lvl1 pml virt false s ≡ ok (0, s)
unfolding walk_to_lvl1
walk_to_lvl1-Missing s pml virt (no_lvl3 a) = rw (walk_pte_absent s pml (lvl_offset 39 virt) a) refl
walk_to_lvl1-Missing s pml virt (no_lvl2 lvl3 l a) =
    rw (walk_pte_present s pml (lvl_offset 39 virt) lvl3 false l)
      (rw (ne→== lvl3 0 l.not_null) (rw (walk_pte_absent s lvl3 (lvl_offset 30 virt) a) refl))
walk_to_lvl1-Missing s pml virt (no_lvl1 lvl3 lvl2 l l' a) =
    rw (walk_pte_present s pml (lvl_offset 39 virt) lvl3 false l) (
      rw (ne→== lvl3 0 l.not_null) (
        rw (walk_pte_present s lvl3 (lvl_offset 30 virt) lvl2 false l')
          (rw (ne→== lvl2 0 l'.not_null) (walk_pte_absent s lvl2 (lvl_offset 21 virt) a))))

-- Where a table on the way to `virt` is missing, at whichever level, and the lock is free, unmapping
-- `virt` returns false, leaves the memory and the page allocator as they were, and leaves the lock
-- free, whether or not the call takes it.
pub vmm_unmap_page-Missing :
    (s : Pmm) (vmm : Vmm) (virt : ℕ) (lock : Bool)
    → Missing s vmm.pml virt
    → vmm.lock ≡ 0
    → vmm_unmap_page vmm virt lock s ≡ ok (false, unlocked vmm, s)
unfolding vmm_unmap_page acquire release test_and_acq
vmm_unmap_page-Missing s vmm virt true missing free =
    rw free (rw (walk_to_lvl1-Missing s vmm.pml virt missing) refl)
vmm_unmap_page-Missing s vmm virt false missing free =
    rw (walk_to_lvl1-Missing s vmm.pml virt missing)
      (ap (λ l. ok (false, record vmm { lock = l }, s)) free)
