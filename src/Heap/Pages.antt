-- ===== src/Heap/Pages.antt =====
-- k_alloc and k_free of mm/kheap.c when a block has an arena of its own.
use mmd_os.Base.{
  ℕ, suc, ◌+◌, ◌-◌, ◌*◌, ◌^◌, ◌≤◌, ◌<◌, ◌≡◌, refl, ap, ap₂, ◌∙◌, arith, inl, u64, sub64, Outcome,
  ok, ◌>>=◌,
}
use mathlib.Core.Path.{subst}
use mmd_os.Memory.{Memory}
use mmd_os.Memory.Words.{read64, read64-write64}
use mmd_os.Pmm.{Pmm, pmm_alloc, pmm_free}
use mmd_os.Pmm.Init.{div_roundup, align_up}
use mmd_os.Vmm.{Vmm}
use mmd_os.Heap.{
  arena_base, arena_size, arena_offset, arena_allocated, take_block, new_arena, find_arena,
  map_arena, k_alloc, unmap_arena, count_down, k_free,
}
use mmd_os.Heap.Block.{IsArena, IsTaken, past, take_block-IsTaken, new_arena-IsArena}

-- The pages of a new arena for a block of `bytes` bytes.
abbrev pub pages_for : ℕ → ℕ
pages_for bytes = div_roundup (bytes + 40 + 8) 4096

-- No arena is in the chain: none is found.
find_arena_null : (fuel bytes : ℕ) (m : Memory) → find_arena (suc fuel) 0 bytes m ≡ ok 0
unfolding find_arena
find_arena_null fuel bytes m = refl

-- What a call of `k_alloc` returned: a block behind the metadata of an arena of its own at `a`,
-- within the arena's pages.
pub record IsBlock (a bytes : ℕ) (vmm : Vmm) (s : Pmm) (r : Outcome (ℕ × Vmm × Pmm)) : Type 0 where
  pub left : Memory
  pub returns : r ≡ ok (a + 48, vmm, record s { mem = left })
  pub arena : IsArena left a (pages_for bytes * 4096) (48 + bytes) 1
  pub metadata : read64 left (a + 40) ≡ a
  pub fits : a + 48 + bytes ≤ a + pages_for bytes * 4096

module _ (bytes p : ℕ) (vmm vmm' : Vmm) (s s1 s2 : Pmm) (small : bytes < 2 ^ 62)
    (given : pmm_alloc (pages_for bytes) s ≡ ok (p, s1))
    (mapped : map_arena (pages_for bytes) 0 p vmm s1 ≡ ok (vmm', s2))
    (inside : p + s2.hhdm_offset + pages_for bytes * 4096 < 2 ^ 64) where
  abbrev arena_at : ℕ
  arena_at = p + s2.hhdm_offset

  aligned : align_up (bytes + 40 + 8) 4096 ≡ pages_for bytes * 4096
  aligned = omega (arith, inside)

  room : 40 + bytes + 8 ≤ pages_for bytes * 4096
  room = omega (arith, small)

  abbrev block : ℕ × Memory
  block = take_block arena_at bytes (new_arena arena_at bytes s2.mem)

  taken :
      IsTaken (new_arena arena_at bytes s2.mem) arena_at (pages_for bytes * 4096) 40 0 bytes block
  taken =
      take_block-IsTaken (new_arena arena_at bytes s2.mem) arena_at (pages_for bytes * 4096) 40 0
        bytes
        (new_arena-IsArena s2.mem arena_at bytes (pages_for bytes * 4096) aligned inside
          (omega (arith, inside)))
        room (omega arith)

  in_new_arena :
      (fuel : ℕ)
      → k_alloc (suc fuel) 0 bytes vmm s ≡ ok (block.0, vmm', record s2 { mem = block.1 })
  unfolding k_alloc
  in_new_arena fuel = rw (find_arena_null fuel bytes s.mem) (rw given (rw mapped (rw at refl)))
    where
      at : u64 (p + s2.hhdm_offset) ≡ arena_at
      at = omega (arith, inside)

  k_alloc-IsBlock : (fuel : ℕ) → IsBlock arena_at bytes vmm' s2 (k_alloc (suc fuel) 0 bytes vmm s)
  k_alloc-IsBlock fuel = record {
    left = block.1;
    returns =
        in_new_arena fuel
        ∙ ap (λ (q : ℕ). ok (q, vmm', record s2 { mem = block.1 })) (taken.address ∙ omega arith);
    arena = subst (λ o. IsArena block.1 arena_at (pages_for bytes * 4096) o 1) used taken.arena;
    metadata = taken.metadata;
    fits = omega (arith, room);
  }
    where
      used : 40 + bytes + 8 ≡ 48 + bytes
      used = omega arith

count_down-IsArena :
    (m : Memory) (a z o n : ℕ)
    → IsArena m a z o (suc n)
    → n < 2 ^ 63
    → IsArena (count_down a m) a z o n
count_down-IsArena m a z o n r few = rw r.counted (
    rw less (record {
      based = past m (arena_allocated a) n (arena_base a) a (inl (omega arith)) r.based;
      sized = past m (arena_allocated a) n (arena_size a) z (inl (omega arith)) r.sized;
      used = past m (arena_allocated a) n (arena_offset a) o (inl (omega arith)) r.used;
      counted = read64-write64 m (arena_allocated a) n (omega (arith, few));
      behind = r.behind;
      inside = r.inside;
    }))
  where
    less : sub64 (suc n) 1 ≡ n
    less = omega (arith, few)

-- The last block of an arena: its pages go back to the page allocator, and are unmapped.
k_free_last :
    (fuel addr a z o : ℕ) (vmm : Vmm) (s : Pmm)
    → sub64 addr 8 ≡ addr - 8
    → read64 s.mem (addr - 8) ≡ a
    → IsArena s.mem a z o 1
    → k_free fuel addr vmm s ≡ (
        pmm_free
          (sub64 a s.hhdm_offset)
          (div_roundup z 4096)
          (record s { mem = count_down a s.mem })
        >>= λ s2. unmap_arena fuel 0 a vmm s2)
unfolding k_free
k_free_last fuel addr a z o vmm s far at r =
    let c = count_down-IsArena s.mem a z o 0 r (omega arith) in
    rw far (rw at (rw (c.based, c.sized) (rw c.counted refl)))

div_roundup_pages : (n : ℕ) → n * 4096 + 4095 < 2 ^ 64 → div_roundup (n * 4096) 4096 ≡ n
div_roundup_pages n h = omega arith

-- For less than 2^62 bytes, with no arena in the chain, where `pmm_alloc` gives pages at `p` whose
-- addresses in the direct map fit 64 bits, and mapping them succeeds: `k_alloc` returns a block of
-- that many bytes within those pages. `k_free` of the block then gives exactly the pages that
-- `pmm_alloc` gave back to `pmm_free`, with the count of the arena down to 0, and goes on with the
-- loop that unmaps them.
pub k_free-k_alloc :
    (fuel bytes p : ℕ) (vmm vmm' : Vmm) (s s1 s2 : Pmm)
    → bytes < 2 ^ 62
    → pmm_alloc (pages_for bytes) s ≡ ok (p, s1)
    → map_arena (pages_for bytes) 0 p vmm s1 ≡ ok (vmm', s2)
    → p + s2.hhdm_offset + pages_for bytes * 4096 < 2 ^ 64
    → let a = p + s2.hhdm_offset in
      (addr : ℕ) × (m : Memory) × (k_alloc (suc fuel) 0 bytes vmm s
        ≡ ok (addr, vmm', record s2 { mem = m }))
      × (a ≤ addr)
      × (addr + bytes ≤ a + pages_for bytes * 4096)
      × (k_free fuel addr vmm' (record s2 { mem = m }) ≡ (
          pmm_free p (pages_for bytes) (record s2 { mem = count_down a m }) >>= λ s3.
          unmap_arena fuel 0 a vmm' s3))
k_free-k_alloc fuel bytes p vmm vmm' s s1 s2 small given mapped inside =
    let a = p + s2.hhdm_offset in
    let b = k_alloc-IsBlock bytes p vmm vmm' s s1 s2 small given mapped inside fuel in
    let place : a + 48 - 8 ≡ a + 40 = omega arith in
    let freed =
      k_free_last fuel (a + 48) a (pages_for bytes * 4096) (48 + bytes) vmm'
        (record s2 { mem = b.left }) (omega (arith, inside, b.fits))
        (ap (read64 b.left) place ∙ b.metadata) b.arena in
    let page : sub64 a s2.hhdm_offset ≡ p = omega (arith, inside) in
    let pages : div_roundup (pages_for bytes * 4096) 4096 ≡ pages_for bytes =
      div_roundup_pages (pages_for bytes) (omega (arith, small)) in
    (
      a + 48,
      b.left,
      b.returns,
      omega arith,
      b.fits,
      freed
          ∙ ap₂
              (λ q n. pmm_free q n (record s2 { mem = count_down a b.left }) >>= λ s3.
                unmap_arena fuel 0 a vmm' s3)
              page pages,
    )
