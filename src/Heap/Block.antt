-- ===== src/Heap/Block.antt =====
-- Blocks of an arena: what k_alloc and k_free of mm/kheap.c do with its words.
use mmd_os.Base.{ℕ, ◌+◌, ◌^◌, ◌≤◌, ◌<◌, ◌≡◌, ◌⊎◌, inl, inr, refl, ◌∙◌, arith, u64}
use mmd_os.Memory.{Memory}
use mmd_os.Memory.Words.{read64, write64, read64-write64, read64-other}
use mmd_os.Pmm.Init.{align_up}
use mmd_os.Heap.{
  arena_next, arena_base, arena_size, arena_offset, arena_allocated, take_block, new_arena,
}

-- The arena at `a`: `o` of its `z` bytes are used, and `n` of its blocks are not free.
pub record IsArena (m : Memory) (a z o n : ℕ) : Type 0 where
  pub based : read64 m (arena_base a) ≡ a
  pub sized : read64 m (arena_size a) ≡ z
  pub used : read64 m (arena_offset a) ≡ o
  pub counted : read64 m (arena_allocated a) ≡ n
  pub behind : 40 ≤ o
  pub inside : a + z < 2 ^ 64

-- A word behind a write elsewhere.
pub past :
    (m : Memory) (p v q x : ℕ)
    → (q + 8 ≤ p) ⊎ (p + 8 ≤ q)
    → read64 m q ≡ x
    → read64 (write64 m p v) q ≡ x
past m p v q x apart e = read64-other m p v q apart ∙ e

-- What `take_block` leaves: the block's address, the arena, and the metadata before the block.
pub record IsTaken (m : Memory) (a z o n bytes : ℕ) (r : ℕ × Memory) : Type 0 where
  pub address : r.0 ≡ a + o + 8
  pub arena : IsArena r.1 a z (o + bytes + 8) (n + 1)
  pub metadata : read64 r.1 (a + o) ≡ a
  pub others :
      (q : ℕ)
      → (q + 8 ≤ a) ⊎ (a + 40 ≤ q)
      → (q + 8 ≤ a + o) ⊎ (a + o + 8 ≤ q)
      → read64 r.1 q ≡ read64 m q

-- The memory after a block is taken, with what was read from the arena filled in.
abbrev with_block : Memory → ℕ → ℕ → ℕ → ℕ → Memory
with_block m a o n bytes =
    write64 (write64 (write64 m (a + o) a) (arena_offset a) (o + bytes + 8)) (arena_allocated a)
      (n + 1)

take_block-with_block :
    (m : Memory) (a z o n bytes : ℕ)
    → IsArena m a z o n
    → o + bytes + 8 ≤ z
    → n + 1 < 2 ^ 64
    → take_block a bytes m ≡ (a + o + 8, with_block m a o n bytes)
unfolding take_block
take_block-with_block m a z o n bytes r room few =
    rw (r.based, r.used)
      (rw spot (rw (based1, used1) (rw (address, more) (rw counted2 (rw count refl)))))
  where
    m1 : Memory
    m1 = write64 m (a + o) a

    spot : u64 (a + o) ≡ a + o
    spot = omega (arith, r.inside)

    based1 : read64 m1 (arena_base a) ≡ a
    based1 = past m (a + o) a (arena_base a) a (inl (omega (arith, r.behind))) r.based

    used1 : read64 m1 (arena_offset a) ≡ o
    used1 = past m (a + o) a (arena_offset a) o (inl (omega (arith, r.behind))) r.used

    address : u64 (a + o + 8) ≡ a + o + 8
    address = omega (arith, r.inside)

    more : u64 (o + bytes + 8) ≡ o + bytes + 8
    more = omega (arith, r.inside)

    counted2 : read64 (write64 m1 (arena_offset a) (o + bytes + 8)) (arena_allocated a) ≡ n
    counted2 =
        past m1 (arena_offset a) (o + bytes + 8) (arena_allocated a) n (inr (omega arith))
          (past m (a + o) a (arena_allocated a) n (inl (omega (arith, r.behind))) r.counted)

    count : u64 (n + 1) ≡ n + 1
    count = omega (arith, few)

-- With room for the block and its metadata in an arena, the block is behind the metadata and within
-- the arena; the arena then counts it, and no word apart from the arena's own and the metadata
-- changes.
pub take_block-IsTaken :
    (m : Memory) (a z o n bytes : ℕ)
    → IsArena m a z o n
    → o + bytes + 8 ≤ z
    → n + 1 < 2 ^ 64
    → IsTaken m a z o n bytes (take_block a bytes m)
take_block-IsTaken m a z o n bytes r room few =
    rw (take_block-with_block m a z o n bytes r room few) (record {
      address = refl;
      arena = record {
        based =
            through (arena_base a) a (inl (omega (arith, r.behind))) (inl (omega arith))
              (inl (omega arith)) r.based;
        sized =
            through (arena_size a) z (inl (omega (arith, r.behind))) (inl (omega arith))
              (inl (omega arith)) r.sized;
        used =
            past m2 (arena_allocated a) (n + 1) (arena_offset a) (o + bytes + 8) (inl (omega arith))
              (read64-write64 m1 (arena_offset a) (o + bytes + 8) (omega (arith, r.inside)));
        counted = read64-write64 m2 (arena_allocated a) (n + 1) few;
        behind = omega (arith, r.behind);
        inside = r.inside;
      };
      metadata = past m2 (arena_allocated a) (n + 1) (a + o) a (inr (omega (arith, r.behind))) (
          past m1 (arena_offset a) (o + bytes + 8) (a + o) a (inr (omega (arith, r.behind)))
            (read64-write64 m (a + o) a (omega (arith, r.inside))));
      others = λ q out apart.
          through q (read64 m q) apart (ground (arith, out)) (ground (arith, out)) refl;
    })
  where
    m1 : Memory
    m1 = write64 m (a + o) a

    m2 : Memory
    m2 = write64 m1 (arena_offset a) (o + bytes + 8)

    through :
        (q x : ℕ)
        → (q + 8 ≤ a + o) ⊎ (a + o + 8 ≤ q)
        → (q + 8 ≤ arena_offset a) ⊎ (arena_offset a + 8 ≤ q)
        → (q + 8 ≤ arena_allocated a) ⊎ (arena_allocated a + 8 ≤ q)
        → read64 m q ≡ x
        → read64 (with_block m a o n bytes) q ≡ x
    through q x one two three e =
        past m2 (arena_allocated a) (n + 1) q x three
          (past m1 (arena_offset a) (o + bytes + 8) q x two (past m (a + o) a q x one e))

pub new_arena-IsArena :
    (m : Memory) (a bytes z : ℕ)
    → align_up (bytes + 40 + 8) 4096 ≡ z
    → a + z < 2 ^ 64
    → z < 2 ^ 64
    → IsArena (new_arena a bytes m) a z 40 0
new_arena-IsArena m a bytes z e inside fits = rw e (record {
  based =
      behind_base (arena_base a) a (inl (omega arith)) (inl (omega arith)) (inl (omega arith))
        (read64-write64 m1 (arena_base a) a (omega arith));
  sized = past m4 (arena_allocated a) 0 (arena_size a) z (inl (omega arith)) (
      past m3 (arena_offset a) 40 (arena_size a) z (inl (omega arith))
        (read64-write64 m2 (arena_size a) z fits));
  used =
      past m4 (arena_allocated a) 0 (arena_offset a) 40 (inl (omega arith))
        (read64-write64 m3 (arena_offset a) 40 (omega arith));
  counted = read64-write64 m4 (arena_allocated a) 0 (omega arith);
  behind = omega arith;
  inside = inside;
})
  where
    m1 : Memory
    m1 = write64 m (arena_next a) 0

    m2 : Memory
    m2 = write64 m1 (arena_base a) a

    m3 : Memory
    m3 = write64 m2 (arena_size a) z

    m4 : Memory
    m4 = write64 m3 (arena_offset a) 40

    behind_base :
        (q x : ℕ)
        → (q + 8 ≤ arena_size a) ⊎ (arena_size a + 8 ≤ q)
        → (q + 8 ≤ arena_offset a) ⊎ (arena_offset a + 8 ≤ q)
        → (q + 8 ≤ arena_allocated a) ⊎ (arena_allocated a + 8 ≤ q)
        → read64 m2 q ≡ x
        → read64 (write64 m4 (arena_allocated a) 0) q ≡ x
    behind_base q x one two three e =
        past m4 (arena_allocated a) 0 q x three
          (past m3 (arena_offset a) 40 q x two (past m2 (arena_size a) z q x one e))
