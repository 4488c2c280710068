-- ===== src/Heap/Tests.antt =====
-- Tests of the kernel heap.
use mmd_os.Base.{ℕ, ◌+◌, ◌*◌, ◌≤◌, ◌≡◌, refl, arith, ok, ◌>>=◌}
use mmd_os.Memory.{Memory, memset, write}
use mmd_os.Memory.Words.{read64, write64, read_le, write_le}
use mmd_os.Spinlock.{acquire, release}
use mmd_os.Pmm.{
  Pmm, bitmap_set, bitmap_get, pmm_alloc, pmm_alloc_nozero, pmm_free, lock_pmm, alloc_locked,
  physical_alloc, scan, claim, set_pages, unlock_pmm, zero_pages,
}
use mmd_os.Vmm.{Vmm, vmm_map_page, walk_to_lvl1, walk_pte}
use mmd_os.Heap.{map_arena, k_alloc, k_free, unmap_arena, count_down}
use mmd_os.Heap.Pages.{k_free-k_alloc}

-- Four tables from 0x1000 on, in the direct map at offset 0; the bitmap says that pages 0 to 9 are in
-- use.
abbrev table_memory : Memory
table_memory =
    write
      (write (write64 (write64 (write64 (λ _. 0) 0x1000 0x2003) 0x2000 0x3003) 0x3000 0x4003)
        0x10000 0xff)
      0x10001 0x3

abbrev tables : Pmm
tables = record {
  mem = table_memory;
  lock = 0;
  bitmap = 0x10000;
  bitmap_top_index = 32;
  bitmap_prev_index = 10;
  hhdm_offset = 0;
}

abbrev root : Vmm
root = record { lock = 0; pml = 0x1000 }

-- Page 10 was given.
abbrev page_given : Pmm
page_given = record tables {
  mem = memset (bitmap_set table_memory 0x10000 10) 0xA000 0 4096;
  bitmap_prev_index = 11;
}

given : pmm_alloc 1 tables ≡ ok (0xA000, page_given)
unfolding pmm_alloc pmm_alloc_nozero lock_pmm acquire alloc_locked physical_alloc scan claim
    bitmap_get set_pages unlock_pmm release zero_pages
given = refl

abbrev page_mapped : Pmm
page_mapped = record page_given { mem = write64 page_given.mem 0x4050 0xA003 }

mapped : map_arena 1 0 0xA000 root page_given ≡ ok (root, page_mapped)
unfolding map_arena vmm_map_page acquire release walk_to_lvl1 walk_pte read64 read_le write64
    write_le memset bitmap_set
mapped = refl

k_free-k_alloc_example :
    (addr : ℕ) × (m : Memory) × (k_alloc 1 0 100 root tables
      ≡ ok (addr, root, record page_mapped { mem = m }))
    × (0xA000 + 0 ≤ addr)
    × (addr + 100 ≤ 0xA000 + 0 + 1 * 4096)
    × (k_free 0 addr root (record page_mapped { mem = m }) ≡ (
        pmm_free 0xA000 1 (record page_mapped { mem = count_down (0xA000 + 0) m }) >>= λ s3.
        unmap_arena 0 0 (0xA000 + 0) root s3))
k_free-k_alloc_example =
    k_free-k_alloc 0 100 0xA000 root root tables page_given page_mapped (omega arith) given mapped
      (omega arith)
