-- ===== src/Vmm/Tests.antt =====
-- Runs of kernel/mm/vmm.c at fixed inputs.
use mmd_os.Base.{ℕ, ◌+◌, ◌*◌, ◌≡◌, refl, inl, arith, true, false, ok, ◌>>=◌}
use mmd_os.Memory.Words.{read64, write64, read_le, write_le}
use mmd_os.Pmm.{Pmm}
use mmd_os.Vmm.{Vmm, lvl_offset, vmm_map_page, vmm_unmap_page, vmm_change_flag, vmm_virt2phys}
use mmd_os.Vmm.Walk.{Leads, Walked}
use mmd_os.Vmm.Change.{entry}
use mmd_os.Vmm.Translate.{
  unlocked, vmm_map_page_translates, vmm_unmap_page_forgets, vmm_change_flag_keeps,
  other_address_kept,
}

-- Four tables from 0x1000 on, in the direct map at offset 0; only page 6 is mapped, to page 9.
abbrev tables : Pmm
tables = record {
  mem =
      write64 (write64 (write64 (write64 (λ _. 0) 0x1000 0x2003) 0x2000 0x3003) 0x3000 0x4003)
        0x4030 0x9001;
  lock = 0;
  bitmap = 0x10000;
  bitmap_top_index = 32;
  bitmap_prev_index = 0;
  hhdm_offset = 0;
}

abbrev root : Vmm
root = record { lock = 0; pml = 0x1000 }

leads :
    (table offset next : ℕ)
    → offset ≡ 0
    → Leads tables table 0 next
    → Leads tables table offset next
leads table offset next e l = rw e l

-- The way to the first 512 pages.
walked :
    (virt : ℕ)
    → lvl_offset 39 virt ≡ 0
    → lvl_offset 30 virt ≡ 0
    → lvl_offset 21 virt ≡ 0
    → Walked tables 0x1000 virt 0x4000
unfolding read64 write64 read_le write_le
walked virt e3 e2 e1 = record {
  lvl3 = 0x2000;
  lvl2 = 0x3000;
  step3 =
      leads 0x1000 _ 0x2000 e3
        (record { present = refl; target = refl; not_null = λ h. omega arith });
  step2 =
      leads 0x2000 _ 0x3000 e2
        (record { present = refl; target = refl; not_null = λ h. omega arith });
  step1 =
      leads 0x3000 _ 0x4000 e1
        (record { present = refl; target = refl; not_null = λ h. omega arith });
  tables = ((refl, omega arith), (refl, omega arith), (refl, omega arith), (refl, omega arith));
  last_apart = (λ h. omega arith, λ h. omega arith, λ h. omega arith);
}

vmm_map_page_translates_example :
    (s' : Pmm) × (vmm_map_page root 0x5000 (7 * 4096) 3 tables ≡ ok (true, unlocked root, s'))
    × (vmm_virt2phys (unlocked root) 0x5000 true s' ≡ ok (7 * 4096, s'))
    × (vmm_map_page (unlocked root) 0x5000 0x8000 1 s' ≡ ok (true, unlocked root, s'))
unfolding read64 write64 read_le write_le
vmm_map_page_translates_example =
    vmm_map_page_translates tables root 0x5000 0x4000 7 3 0x8000 1 true
      (walked 0x5000 refl refl refl) refl refl (omega arith) (omega arith, omega arith) refl

vmm_unmap_page_forgets_example :
    (s' : Pmm) × (vmm_unmap_page root 0x6000 true tables ≡ ok (true, unlocked root, s'))
    × (vmm_virt2phys (unlocked root) 0x6000 true s' ≡ ok (0, s'))
    × (vmm_unmap_page (unlocked root) 0x6000 false s' ≡ ok (false, unlocked root, s'))
unfolding read64 write64 read_le write_le
vmm_unmap_page_forgets_example =
    vmm_unmap_page_forgets tables root 0x6000 0x4000 true false true (walked 0x6000 refl refl refl)
      refl refl

vmm_change_flag_keeps_example :
    (address : ℕ) × (s' : Pmm) × (vmm_virt2phys root 0x6000 true tables ≡ ok (address, tables))
    × (vmm_change_flag root 0x6000 5 true tables ≡ ok (true, unlocked root, s'))
    × (vmm_virt2phys (unlocked root) 0x6000 true s' ≡ ok (address, s'))
    × (entry s' 0x6000 0x4000 ≡ address + 5)
unfolding read64 write64 read_le write_le
vmm_change_flag_keeps_example =
    vmm_change_flag_keeps tables root 0x6000 0x4000 5 true true (walked 0x6000 refl refl refl) refl
      refl (omega arith, omega arith)

other_address_kept_example :
    (address : ℕ) × (vmm_virt2phys root 0x6000 true tables ≡ ok (address, tables))
    × ((vmm_map_page root 0x5000 0x7000 3 tables >>= λ r.
          vmm_virt2phys r.1 0x6000 true r.2 >>= λ a. ok (a.0))
        ≡ ok address)
    × ((vmm_unmap_page root 0x5000 true tables >>= λ r.
          vmm_virt2phys r.1 0x6000 true r.2 >>= λ a. ok (a.0))
        ≡ ok address)
    × ((vmm_change_flag root 0x5000 3 true tables >>= λ r.
          vmm_virt2phys r.1 0x6000 true r.2 >>= λ a. ok (a.0))
        ≡ ok address)
unfolding walked
other_address_kept_example =
    other_address_kept tables root 0x5000 0x4000 0x6000 0x4000 0x7000 3 true true
      (walked 0x5000 refl refl refl) (walked 0x6000 refl refl refl) refl
      (λ h. omega arith, λ h. omega arith, λ h. omega arith) (inl (omega arith))

-- Nothing is mapped from 0x200000 on: the entry of level 2 is missing.
