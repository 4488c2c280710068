-- ===== src/Heap.antt =====
-- The kernel heap: mm/kheap.c. An arena is its address; its words are in the memory of the page
-- allocator, at the addresses of the direct map.
mod Tests
pub mod Block
pub mod Pages
use mmd_os.Base.{
  ℕ, zero, suc, ◌+◌, ◌-◌, ◌*◌, ◌/◌, ◌%◌, ◌^◌, Bool, true, false, if◌then◌else◌, ltb, leb, ◌==◌,
  ◌!=◌, u64, sub64, Outcome, ok, panicked, out_of_fuel, ◌>>=◌,
}
use mmd_os.Memory.{Memory}
use mmd_os.Memory.Words.{read64, write64}
use mmd_os.Pmm.{Pmm, page_size, pmm_alloc, pmm_free}
use mmd_os.Pmm.Init.{div_roundup, align_up}
use mmd_os.Vmm.{Vmm, vmm_map_page, vmm_unmap_page}

abbrev pub arena_size_of : ℕ
arena_size_of = 40

abbrev pub metadata_size_of : ℕ
metadata_size_of = 8

-- The places of an arena's fields.
abbrev pub arena_next : ℕ → ℕ
arena_next arena = arena

abbrev pub arena_base : ℕ → ℕ
arena_base arena = arena + 8

abbrev pub arena_size : ℕ → ℕ
arena_size arena = arena + 16

abbrev pub arena_offset : ℕ → ℕ
arena_offset arena = arena + 24

abbrev pub arena_allocated : ℕ → ℕ
arena_allocated arena = arena + 32

-- A block of an arena: its metadata, its address, and the new offset and count.
unfoldable pub take_block : ℕ → ℕ → Memory → ℕ × Memory
take_block arena bytes m =
    let m1 =
      write64 m (u64 (read64 m (arena_base arena) + read64 m (arena_offset arena)))
        (read64 m (arena_base arena)) in
    let ret =
      u64 (read64 m1 (arena_base arena) + read64 m1 (arena_offset arena) + metadata_size_of) in
    let m2 =
      write64 m1 (arena_offset arena)
        (u64 (read64 m1 (arena_offset arena) + bytes + metadata_size_of)) in
    (ret, write64 m2 (arena_allocated arena) (u64 (read64 m2 (arena_allocated arena) + 1)))

-- The `for` loop over the arenas, on fuel: the first with room, or NULL.
pub find_arena : ℕ → ℕ → ℕ → Memory → Outcome ℕ
find_arena zero arena bytes m = out_of_fuel
find_arena (suc fuel) arena bytes m =
    let rest = find_arena fuel (read64 m (arena_next arena)) bytes m in
    if arena == 0
    then ok 0
    else if leb (u64 (bytes + metadata_size_of))
        (sub64 (read64 m (arena_size arena)) (read64 m (arena_offset arena)))
    then ok arena
    else rest

-- The pages of a new arena, from page `i` on for `n` pages.
unfoldable pub map_arena : ℕ → ℕ → ℕ → Vmm → Pmm → Outcome (Vmm × Pmm)
map_arena zero i new_alloc vmm s = ok (vmm, s)
map_arena (suc n) i new_alloc vmm s =
    vmm_map_page vmm (u64 (new_alloc + i * page_size + s.hhdm_offset))
      (u64 (new_alloc + i * page_size)) 3 s
    >>= λ (mapped, vmm', s'). if mapped then map_arena n (i + 1) new_alloc vmm' s' else panicked

-- The fields of a new arena.
abbrev pub new_arena : ℕ → ℕ → Memory → Memory
new_arena arena bytes m =
    write64
      (write64
        (write64 (write64 (write64 m (arena_next arena) 0) (arena_base arena) arena)
          (arena_size arena) (align_up (bytes + arena_size_of + metadata_size_of) page_size))
        (arena_offset arena) arena_size_of)
      (arena_allocated arena) 0

-- `k_alloc` for the kernel's tables `vmm`, whose first arena is `arena`. The new arena is stored in a
-- local variable only, so the chain of arenas stays as it is.
unfoldable pub k_alloc : ℕ → ℕ → ℕ → Vmm → Pmm → Outcome (ℕ × Vmm × Pmm)
k_alloc fuel arena bytes vmm s = find_arena fuel arena bytes s.mem >>= λ found.
    let in_found = take_block found bytes s.mem in
    let pages = div_roundup (bytes + arena_size_of + metadata_size_of) page_size in
    let in_new =
      (pmm_alloc pages s >>= λ (new_alloc, s1). map_arena pages 0 new_alloc vmm s1 >>= λ (vmm', s2).
      let at = u64 (new_alloc + s2.hhdm_offset) in
      let block = take_block at bytes (new_arena at bytes s2.mem) in
      ok (block.0, vmm', record s2 { mem = block.1 })) in
    if found != 0 then ok (in_found.0, vmm, record s { mem = in_found.1 }) else in_new

-- The loop that unmaps the pages of an arena, on fuel; it reads the size anew in each round.
pub unmap_arena : ℕ → ℕ → ℕ → Vmm → Pmm → Outcome (Vmm × Pmm)
unmap_arena zero i arena vmm s = out_of_fuel
unmap_arena (suc fuel) i arena vmm s =
    let rest =
      (vmm_unmap_page vmm (u64 (arena + i * page_size)) true s >>= λ (done, vmm', s').
      unmap_arena fuel (i + 1) arena vmm' s') in
    if ltb i (read64 s.mem (arena_size arena) / page_size) then rest else ok (vmm, s)

abbrev pub count_down : ℕ → Memory → Memory
count_down arena m = write64 m (arena_allocated arena) (sub64 (read64 m (arena_allocated arena)) 1)

unfoldable pub k_free : ℕ → ℕ → Vmm → Pmm → Outcome (Vmm × Pmm)
k_free fuel addr vmm s =
    let arena = read64 s.mem (sub64 addr metadata_size_of) in
    let s1 = record s { mem = count_down arena s.mem } in
    let last =
      (pmm_free (sub64 (read64 s1.mem (arena_base arena)) s1.hhdm_offset)
          (div_roundup (read64 s1.mem (arena_size arena)) page_size) s1
        >>= λ s2. unmap_arena fuel 0 arena vmm s2) in
    if read64 s1.mem (arena_allocated arena) == 0 then last else ok (vmm, s1)
