-- ===== src/Pmm.antt =====
-- The physical page allocator: kernel/mm/bitmap.h and kernel/mm/pmm.c.
mod Tests
pub mod Bits
pub mod Scan
pub mod Alloc
pub mod Free
pub mod Init
pub mod Client
pub mod Zero
use mmd_os.Base.{
  ℕ, zero, suc, ◌+◌, ◌-◌, ◌*◌, ◌/◌, ◌%◌, ◌^◌, Bool, true, false, if◌then◌else◌, ltb, ◌==◌, ◌!=◌,
  bit_and, bit_or, u64, sub64, Outcome, ok, panicked, spinning, ◌>>=◌, List, [], ◌∷◌,
}
use mmd_os.Memory.{Memory, write, memset}
use mmd_os.Spinlock.{acquire, release}

abbrev pub page_size : ℕ
page_size = 4096

-- `bitmap[bit / 8] |= (1 << (bit % 8))`
unfoldable pub bitmap_set : Memory → ℕ → ℕ → Memory
bitmap_set m bitmap bit = write m (bitmap + bit / 8) (bit_or (m (bitmap + bit / 8)) (2 ^ (bit % 8)))

-- `bitmap[bit / 8] &= ~(1 << (bit % 8))`: the byte keeps the low eight bits of the complement.
unfoldable pub bitmap_clear : Memory → ℕ → ℕ → Memory
bitmap_clear m bitmap bit =
    write m (bitmap + bit / 8) (bit_and (m (bitmap + bit / 8)) (255 - 2 ^ (bit % 8)))

unfoldable pub bitmap_get : Memory → ℕ → ℕ → Bool
bitmap_get m bitmap bit = bit_and (m (bitmap + bit / 8)) (2 ^ (bit % 8)) != 0

-- The file's static variables, and the memory that they point into.
pub record Pmm : Type 0 where
  pub mem : Memory
  pub lock : ℕ
  pub bitmap : ℕ
  pub bitmap_top_index : ℕ
  pub bitmap_prev_index : ℕ
  pub hhdm_offset : ℕ

-- Whether the bitmap has page `i` as in use.
abbrev pub used : Pmm → ℕ → Bool
used s i = bitmap_get s.mem s.bitmap i

-- `for (i = page_index; i < page_index + n_pages; i++) bitmap_set(bitmap, i);`
unfoldable pub set_pages : ℕ → ℕ → Memory → ℕ → Memory
set_pages zero bitmap m i = m
set_pages (suc n) bitmap m i = set_pages n bitmap (bitmap_set m bitmap i) (i + 1)

abbrev pub advance : Pmm → Pmm
advance s = record s { bitmap_prev_index = u64 (s.bitmap_prev_index + 1) }

-- What happens when `consecutive_pages == n_pages`, after the increments.
unfoldable pub claim : ℕ → Pmm → ℕ × Pmm
claim n s =
    let page_index = sub64 s.bitmap_prev_index n in
    (u64 (page_index * page_size), record s { mem = set_pages n s.bitmap s.mem page_index })

-- The `while` of `physical_alloc`, on `rounds` of fuel; the address 0 is NULL.
unfoldable pub scan : ℕ → ℕ → ℕ → ℕ → Pmm → ℕ × Pmm
scan zero n limit consecutive s = (0, s)
scan (suc rounds) n limit consecutive s =
    let skip = scan rounds n limit 0 (advance s) in
    let more = scan rounds n limit (u64 (consecutive + 1)) (advance s) in
    if ltb s.bitmap_prev_index limit
    then if used s s.bitmap_prev_index
      then skip
      else if u64 (consecutive + 1) == n
      then claim n (advance s)
      else more
    else (0, s)

-- The index grows by one a round, so the distance to the limit is fuel enough.
unfoldable pub physical_alloc : ℕ → ℕ → Pmm → ℕ × Pmm
physical_alloc n limit s = scan (limit - s.bitmap_prev_index) n limit 0 s

-- The second search of `pmm_alloc_nozero`, from page 0 up to where the first one began.
unfoldable pub alloc_wrapped : ℕ → ℕ → Pmm → Outcome (ℕ × Pmm)
alloc_wrapped n prev_index s =
    let (address, s') = physical_alloc n prev_index (record s { bitmap_prev_index = 0 }) in
    if address == 0 then panicked else ok (address, s')

unfoldable pub alloc_locked : ℕ → Pmm → Outcome (ℕ × Pmm)
alloc_locked n s =
    let (address, s') = physical_alloc n s.bitmap_top_index s in
    if address == 0 then alloc_wrapped n s.bitmap_prev_index s' else ok (address, s')

unfoldable pub lock_pmm : Pmm → Outcome Pmm
lock_pmm s = do l ← acquire s.lock; ok (record s { lock = l })

unfoldable pub unlock_pmm : Pmm → Pmm
unlock_pmm s = record s { lock = release s.lock }

unfoldable pub pmm_alloc_nozero : ℕ → Pmm → Outcome (ℕ × Pmm)
pmm_alloc_nozero n s = do held ← lock_pmm s; r ← alloc_locked n held; ok (r.0, unlock_pmm r.1)

-- `memset(allocated + get_hhdm(), 0, n_pages * PAGE_SIZE)`, unless the address is NULL.
unfoldable pub zero_pages : ℕ → ℕ → Pmm → Pmm
zero_pages n address s =
    if address == 0
    then s
    else record s { mem = memset s.mem (u64 (address + s.hhdm_offset)) 0 (u64 (n * page_size)) }

unfoldable pub pmm_alloc : ℕ → Pmm → Outcome (ℕ × Pmm)
pmm_alloc n s = do r ← pmm_alloc_nozero n s; ok (r.0, zero_pages n r.0 r.1)

-- The loop of `pmm_free`, by the pages left.
pub clear_used : ℕ → ℕ → Memory → ℕ → Outcome Memory
clear_used zero bitmap m i = ok m
clear_used (suc n) bitmap m i =
    let rest = clear_used n bitmap (bitmap_clear m bitmap i) (i + 1) in
    if bitmap_get m bitmap i then rest else panicked

unfoldable pub pmm_free : ℕ → ℕ → Pmm → Outcome Pmm
pmm_free addr zero s = ok s
pmm_free addr (suc k) s = do
  held ← lock_pmm s
  m ← clear_used (suc k) held.bitmap held.mem (addr / page_size)
  ok (unlock_pmm (record held { mem = m }))

unfoldable pub pmm_check_alloc : ℕ → Pmm → Bool
pmm_check_alloc addr s = bitmap_get s.mem s.bitmap (addr / page_size)
