-- ===== src/Pmm/Tests.antt =====
-- Runs of the page allocator and the theorems about it at concrete states.
use mmd_os.Base.{
  ◌++◌, inl, ℕ, ◌*◌, ◌/◌, ◌^◌, ◌≤◌, ◌<◌, ◌≡◌, refl, arith, false, ◌⊎◌, inr, ok, panicked, List, [],
  ◌∷◌, if◌then◌else◌, ◌&&◌, ◌||◌, leb,
}
use mmd_os.Spinlock.{acquire, release}
use mmd_os.Memory.{Memory}
use mmd_os.Pmm.{
  Pmm, used, page_size, physical_alloc, pmm_alloc_nozero, pmm_alloc, pmm_free, set_pages, scan,
  claim, lock_pmm, alloc_locked, unlock_pmm, zero_pages, clear_used, bitmap_get, bitmap_set,
  bitmap_clear,
}
use mmd_os.Pmm.Scan.{in_run, taken, FoundRun, NotFound, physical_alloc_first_fit}
use mmd_os.Pmm.Alloc.{HandedOut, Exhausted, pmm_alloc_nozero_total}
use mmd_os.Pmm.Client.{IsValid, alloc_marks, free-alloc, alloc_disjoint}
use mmd_os.Pmm.Zero.{Zeroed, pmm_alloc_zeroes}
use mmd_os.Pmm.Init.{Entry, pmm_init, highest, bitmap_size}
use mmd_os.Pmm.Init.Ready.{Ready, pmm_init-Ready, pmm_init_panics}

-- A bitmap of one byte at 0x1000: pages 0, 1 and 4 are in use, pages 2, 3, 5, 6, 7 are free.
abbrev one_byte : Memory
one_byte p = if leb 4096 p && leb p 4096 then 0x13 else 0

abbrev small : Pmm
small = record {
  mem = one_byte;
  lock = 0;
  bitmap = 4096;
  bitmap_top_index = 8;
  bitmap_prev_index = 0;
  hhdm_offset = 2 ^ 32;
}

one_byte-lt : (p : ℕ) → one_byte p < 256
one_byte-lt p = ground arith

small-IsValid : IsValid small
unfolding bitmap_get
small-IsValid = record {
  unlocked = refl;
  reserved = refl;
  small = omega arith;
  start = omega arith;
  bytes = one_byte-lt;
}

-- Three pages fit from page 5 on.
first_fit_run : physical_alloc 3 8 small ≡ (5 * 4096, taken 3 5 small)
unfolding physical_alloc scan claim bitmap_get set_pages
first_fit_run = refl

physical_alloc_first_fit_example :
    FoundRun 3 8 0 small (physical_alloc 3 8 small)
    ⊎ NotFound 3 8 0 small (physical_alloc 3 8 small)
physical_alloc_first_fit_example =
    physical_alloc_first_fit 3 8 small (omega arith) (omega arith) (omega arith) one_byte-lt

alloc_run : pmm_alloc_nozero 2 small ≡ ok (2 * 4096, taken 2 2 small)
unfolding pmm_alloc_nozero lock_pmm acquire alloc_locked physical_alloc scan claim bitmap_get
    set_pages unlock_pmm release
alloc_run = refl

pmm_alloc_nozero_total_example :
    HandedOut 2 small (pmm_alloc_nozero 2 small) ⊎ Exhausted 2 small (pmm_alloc_nozero 2 small)
unfolding bitmap_get
pmm_alloc_nozero_total_example =
    pmm_alloc_nozero_total 2 small (omega arith) refl refl (omega arith) (omega arith) one_byte-lt

-- Pages 2 and 3 are taken, so that the next three pages are 5, 6 and 7.
abbrev two_taken : Pmm
two_taken = taken 2 2 small

alloc_marks_example :
    (used two_taken 3 ≡ (in_run 2 2 3 || used small 3)) × ((in_run 2 2 3 && used small 3) ≡ false)
alloc_marks_example = alloc_marks 2 (omega arith) small-IsValid {address = 8192} alloc_run 3

free-alloc_example :
    (s : Pmm) × (pmm_free 8192 2 two_taken ≡ ok s) × ((j : ℕ) → used s j ≡ used small j)
free-alloc_example = free-alloc 2 (omega arith) small-IsValid {address = 8192} alloc_run

second_run : pmm_alloc_nozero 3 two_taken ≡ ok (5 * 4096, taken 3 5 two_taken)
unfolding pmm_alloc_nozero lock_pmm acquire alloc_locked physical_alloc scan claim bitmap_get
    bitmap_set set_pages unlock_pmm release
second_run = refl

alloc_disjoint_example : ◌⊎◌ (4 ≤ 5) (8 ≤ 2)
alloc_disjoint_example =
    alloc_disjoint 2 3 {a = 8192} {b = 5 * 4096} small-IsValid (omega arith) (omega arith) alloc_run
      second_run

-- Pages 0 and 1 are in use.
abbrev low_freed : Pmm
low_freed = record small { mem = bitmap_clear (bitmap_clear one_byte 4096 0) 4096 1 }

free_run : pmm_free 0 2 small ≡ ok low_freed
unfolding pmm_free lock_pmm acquire clear_used bitmap_get bitmap_clear unlock_pmm release
free_run = refl

alloc_zero_run : pmm_alloc 2 small ≡ ok (2 * 4096, zero_pages 2 8192 two_taken)
unfolding pmm_alloc
alloc_zero_run = rw alloc_run refl

pmm_alloc_zeroes_example :
    Zeroed 2 (omega arith) small-IsValid (omega arith) 8192 (zero_pages 2 8192 two_taken)
pmm_alloc_zeroes_example =
    pmm_alloc_zeroes 2 (omega arith) small-IsValid (omega arith) alloc_zero_run (inr (omega arith))

-- 40 MiB of usable memory from 1 MiB on, behind a reserved entry and in front of a short one.
abbrev first_entries : List Entry
first_entries = record { base = 0; len = 2 ^ 20; kind = 1 } ∷ []

abbrev large_entry : Entry
large_entry = record { base = 2 ^ 20; len = 40 * 2 ^ 20; kind = 0 }

abbrev last_entries : List Entry
last_entries = record { base = 2 ^ 26; len = 8192; kind = 0 } ∷ []

abbrev boot : Pmm
boot = record {
  mem = λ _. 0;
  lock = 0;
  bitmap = 0;
  bitmap_top_index = 0;
  bitmap_prev_index = 0;
  hhdm_offset = 0;
}

room :
    bitmap_size (highest (first_entries ++ large_entry ∷ last_entries) 0 / page_size) ≤ 40 * 2 ^ 20
unfolding bitmap_size highest
room = omega arith

pmm_init-Ready_example :
    Ready first_entries large_entry last_entries
      (2 ^ 40)
      boot
      (pmm_init (first_entries ++ large_entry ∷ last_entries) (2 ^ 40) boot)
pmm_init-Ready_example =
    pmm_init-Ready first_entries large_entry last_entries (2 ^ 40) boot (omega arith)
      (omega arith, (omega arith, (omega arith, tt))) (inl refl, tt) refl room (omega arith)
      (λ p. omega arith)

-- No usable entry takes the bitmap.
abbrev short_map : List Entry
short_map = record { base = 2 ^ 20; len = 100; kind = 0 } ∷ []

pmm_init_panics_example : pmm_init short_map 0 boot ≡ panicked
unfolding bitmap_size highest
pmm_init_panics_example = pmm_init_panics short_map 0 boot (omega arith) (inr (omega arith), tt)
