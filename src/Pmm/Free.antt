-- ===== src/Pmm/Free.antt =====
-- `pmm_free` of kernel/mm/pmm.c: which bits it clears, when it panics, and that it undoes
-- `pmm_alloc`.
use mmd_os.Base.{
  ℕ, zero, suc, ◌+◌, ◌/◌, ◌≤◌, ◌<◌, ◌≡◌, refl, arith, true, false, not, ◌&&◌, ℕ_discrete, Outcome,
  ok, panicked, ◌>>=◌,
}
use mmd_os.Memory.{Memory, IsBytes}
use mmd_os.Spinlock.{release}
use mmd_os.Pmm.{Pmm, used, page_size, bitmap_get, bitmap_clear, clear_used, unlock_pmm, pmm_free}
use mmd_os.Pmm.Bits.{get-clear, clear-IsBytes}
use mmd_os.Pmm.Scan.{in_run}
use mmd_os.Pmm.Alloc.{lock_pmm-free}

abbrev UsedRun : ℕ → Memory → ℕ → ℕ → Type 0
UsedRun bitmap m page n = (j : ℕ) → page ≤ j → j < page + n → bitmap_get m bitmap j ≡ true

-- Memory after the loop of `pmm_free`: the run is free, every other page as before.
record Cleared (n bitmap : ℕ) (m : Memory) (page : ℕ) (o : Outcome Memory) : Type 0 where
  after : Memory
  result : o ≡ ok after
  bytes : IsBytes after
  bits : (j : ℕ) → bitmap_get after bitmap j ≡ (not (in_run page n j) && bitmap_get m bitmap j)

Cleared-suc :
    (n bitmap : ℕ) (m : Memory) (page : ℕ)
    → IsBytes m
    → bitmap_get m bitmap page ≡ true
    → Cleared n bitmap
        (bitmap_clear m bitmap page)
        (page + 1)
        (clear_used n bitmap (bitmap_clear m bitmap page) (page + 1))
    → Cleared (suc n) bitmap m page (clear_used (suc n) bitmap m page)
unfolding clear_used
Cleared-suc n bitmap m page bytes busy rest = record {
  after = rest.after;
  result = rw busy rest.result;
  bytes = rest.bytes;
  bits = λ j. ground (arith, rest.bits j, get-clear m bitmap page j bytes);
}

clear_used_lem :
    (n bitmap : ℕ) (m : Memory) (page : ℕ)
    → IsBytes m
    → UsedRun bitmap m page n
    → Cleared n bitmap m page (clear_used n bitmap m page)
unfolding clear_used
clear_used_lem zero bitmap m page bytes busy = record {
  after = m;
  result = refl;
  bytes = bytes;
  bits = λ j. ground arith;
}
clear_used_lem (suc n) bitmap m page bytes busy =
    Cleared-suc n bitmap m page bytes (busy page (omega arith) (omega arith)) (
      clear_used_lem n bitmap (bitmap_clear m bitmap page) (page + 1)
        (clear-IsBytes m bitmap page bytes)
        (λ j h k.
          ground (arith, get-clear m bitmap page j bytes, busy j (omega arith) (omega arith))))

clear_used_panics :
    (n bitmap : ℕ) (m : Memory) (page j : ℕ)
    → IsBytes m
    → page ≤ j
    → j < page + n
    → bitmap_get m bitmap j ≡ false
    → clear_used n bitmap m page ≡ panicked
unfolding clear_used
clear_used_panics zero bitmap m page j bytes h k idle = absurd (omega arith)
clear_used_panics (suc n) bitmap m page j bytes h k idle = elim (ℕ_discrete page j) [
  | yes e ↦ rw (e, idle)
  | no ne ↦ ground (
    arith,
    get-clear m bitmap page j bytes,
    clear_used_panics n bitmap (bitmap_clear m bitmap page) (page + 1) j
        (clear-IsBytes m bitmap page bytes),
  )
]

-- A run of pages given back: those bits are clear, and nothing else of the allocator has changed.
pub record Freed (n page : ℕ) (s : Pmm) (o : Outcome Pmm) : Type 0 where
  pub after : Pmm
  pub result : o ≡ ok after
  pub lock : after.lock ≡ 0
  pub bitmap : after.bitmap ≡ s.bitmap
  pub bytes : IsBytes after.mem
  pub kept : after ≡ record s { mem = after.mem }
  pub bits : (j : ℕ) → used after j ≡ (not (in_run page n j) && used s j)

module _ (s : Pmm) (unlocked : s.lock ≡ 0) (bytes : IsBytes s.mem) where
  -- From a free lock and over memory of bytes, `pmm_free` of pages that are all in use succeeds,
  -- clears the bits of those pages and of no other, and keeps the rest of the allocator's state.
  pub pmm_free_exact :
      (addr n : ℕ)
      → ((j : ℕ) → addr / page_size ≤ j → j < addr / page_size + n → used s j ≡ true)
      → Freed n (addr / page_size) s (pmm_free addr n s)
  unfolding pmm_free unlock_pmm release
  pmm_free_exact addr zero busy = record {
    after = s;
    result = refl;
    lock = unlocked;
    bitmap = refl;
    bytes = bytes;
    kept = refl;
    bits = λ j. ground arith;
  }
  pmm_free_exact addr (suc k) busy =
      rw (lock_pmm-free s unlocked)
        (from (clear_used_lem (suc k) s.bitmap s.mem (addr / page_size) bytes busy))
    where
      finish : Memory → Outcome Pmm
      finish m = ok (record s { mem = m; lock = 0 })

      from :
          Cleared
            (suc k)
            s.bitmap
            s.mem
            (addr / page_size)
            (clear_used (suc k) s.bitmap s.mem (addr / page_size))
          → Freed
              (suc k)
              (addr / page_size)
              s
              (clear_used (suc k) s.bitmap s.mem (addr / page_size) >>= finish)
      from c = record {
        after = record s { mem = c.after; lock = 0 };
        result = rw c.result refl;
        lock = refl;
        bitmap = refl;
        bytes = c.bytes;
        kept = ground arith;
        bits = c.bits;
      }

  -- From a free lock and over memory of bytes, `pmm_free` panics when any page of the run is already
  -- free.
  pub pmm_free_panics :
      (addr n j : ℕ)
      → addr / page_size ≤ j
      → j < addr / page_size + n
      → used s j ≡ false
      → pmm_free addr n s ≡ panicked
  unfolding pmm_free unlock_pmm release
  pmm_free_panics addr zero j h k idle = absurd (omega arith)
  pmm_free_panics addr (suc n) j h k idle =
      rw (lock_pmm-free s unlocked)
        (rw (clear_used_panics (suc n) s.bitmap s.mem (addr / page_size) j bytes h k idle))
