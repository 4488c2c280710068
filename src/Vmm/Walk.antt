-- ===== src/Vmm/Walk.antt =====
-- The walk of kernel/mm/vmm.c through tables that are all present.
use mmd_os.Base.{
  ℕ, ◌+◌, ◌*◌, ◌%◌, ◌^◌, ◌≤◌, ◌<◌, ◌≡◌, ◌≢◌, ap, ◌∙◌, ◌⊎◌, arith, Bool, true, ne→==, u64, ok,
}
use mmd_os.Memory.Words.{read64, write64, read64-other}
use mmd_os.Pmm.{Pmm}
use mmd_os.Vmm.{pte_get_addr, lvl_offset, slot, is_present, put_entry, walk_pte, walk_to_lvl1}
use mmd_os.Vmm.Entry.{lvl_offset_lem}

-- Entry `offset` of `table` is present and leads to the table `next`.
pub record Leads (s : Pmm) (table offset next : ℕ) : Type 0 where
  pub present : is_present (read64 s.mem (slot table offset)) ≡ true
  pub target : u64 (pte_get_addr (read64 s.mem (slot table offset)) + s.hhdm_offset) ≡ next
  pub not_null : next ≢ 0

-- A table fills one page of the address space.
abbrev pub IsTable : ℕ → Type 0
IsTable p = (p % 4096 ≡ 0) × (p + 4096 ≤ 2 ^ 64)

-- The tables on the way to the entry of `virt` are present, and the last one is none of the others.
pub record Walked (s : Pmm) (pml virt lvl1 : ℕ) : Type 0 where
  pub lvl3 : ℕ
  pub lvl2 : ℕ
  pub step3 : Leads s pml (lvl_offset 39 virt) lvl3
  pub step2 : Leads s lvl3 (lvl_offset 30 virt) lvl2
  pub step1 : Leads s lvl2 (lvl_offset 21 virt) lvl1
  pub tables : IsTable pml × IsTable lvl3 × IsTable lvl2 × IsTable lvl1
  pub last_apart : (lvl1 ≢ pml) × (lvl1 ≢ lvl3) × (lvl1 ≢ lvl2)

-- The entry of `virt` in its table of level 1.
abbrev pub last : ℕ → ℕ → ℕ
last virt lvl1 = slot lvl1 (lvl_offset 12 virt)

pub walk_pte_present :
    (s : Pmm) (table offset next : ℕ) (alloc : Bool)
    → Leads s table offset next
    → walk_pte table offset alloc s ≡ ok (next, s)
unfolding walk_pte
walk_pte_present s table offset next alloc l = rw l.present (ap (λ x. ok (x, s)) l.target)

pub walk_to_lvl1_present :
    (s : Pmm) (pml virt lvl1 : ℕ) (alloc : Bool)
    → Walked s pml virt lvl1
    → walk_to_lvl1 pml virt alloc s ≡ ok (lvl1, s)
unfolding walk_to_lvl1
walk_to_lvl1_present s pml virt lvl1 alloc w =
    rw (walk_pte_present s pml (lvl_offset 39 virt) w.lvl3 alloc w.step3) (
      rw (ne→== w.lvl3 0 w.step3.not_null) (
        rw (walk_pte_present s w.lvl3 (lvl_offset 30 virt) w.lvl2 alloc w.step2) (
          rw (ne→== w.lvl2 0 w.step2.not_null)
            (walk_pte_present s w.lvl2 (lvl_offset 21 virt) lvl1 alloc w.step1))))

pub offset-lt : (shift virt : ℕ) → lvl_offset shift virt < 512
offset-lt shift virt = omega (arith, lvl_offset_lem shift virt)

pub slot_lem :
    (table offset : ℕ) → IsTable table → offset < 512 → slot table offset ≡ table + 8 * offset
slot_lem table offset t h = omega (arith, t.1)

-- Slots of different tables do not overlap.
pub slots_apart :
    (a b i j : ℕ)
    → IsTable a
    → IsTable b
    → b ≢ a
    → i < 512
    → j < 512
    → (slot a i + 8 ≤ slot b j) ⊎ (slot b j + 8 ≤ slot a i)
slots_apart a b i j ta tb differ hi hj =
    rw (slot_lem a i ta hi) (rw (slot_lem b j tb hj) (ground (arith, ta.0, tb.0, differ)))

-- A write apart from an entry keeps where it leads.
pub Leads-put_entry :
    (s : Pmm) (table offset next at pte : ℕ)
    → (slot table offset + 8 ≤ at) ⊎ (at + 8 ≤ slot table offset)
    → Leads s table offset next
    → Leads (put_entry s at pte) table offset next
Leads-put_entry s table offset next at pte apart l = record {
  present = ap is_present same ∙ l.present;
  target = ap (λ x. u64 (pte_get_addr x + s.hhdm_offset)) same ∙ l.target;
  not_null = l.not_null;
}
  where
    same : read64 (write64 s.mem at pte) (slot table offset) ≡ read64 s.mem (slot table offset)
    same = read64-other s.mem at pte (slot table offset) apart

-- A write to an entry of a table that is on none of the three steps keeps the way.
pub Walked-put_entry :
    (s : Pmm) (pml virt lvl1 table offset pte : ℕ)
    → IsTable table
    → offset < 512
    → (w : Walked s pml virt lvl1) → table ≢ pml
    → table ≢ w.lvl3
    → table ≢ w.lvl2
    → Walked (put_entry s (slot table offset) pte) pml virt lvl1
Walked-put_entry s pml virt lvl1 table offset pte t h w n4 n3 n2 = record {
  lvl3 = w.lvl3;
  lvl2 = w.lvl2;
  step3 = kept pml 39 w.lvl3 (w.tables.0) n4 w.step3;
  step2 = kept w.lvl3 30 w.lvl2 (w.tables.1) n3 w.step2;
  step1 = kept w.lvl2 21 lvl1 (w.tables.2) n2 w.step1;
  tables = w.tables;
  last_apart = w.last_apart;
}
  where
    kept :
        (on shift next : ℕ)
        → IsTable on
        → table ≢ on
        → Leads s on (lvl_offset shift virt) next
        → Leads (put_entry s (slot table offset) pte) on (lvl_offset shift virt) next
    kept on shift next t' differ l =
        Leads-put_entry s on (lvl_offset shift virt) next (slot table offset) pte
          (slots_apart on table (lvl_offset shift virt) offset t' t differ (offset-lt shift virt) h)
          l
