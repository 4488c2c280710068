-- ===== src/Pmm/Alloc.antt =====
-- `pmm_alloc_nozero` and `pmm_alloc` of kernel/mm/pmm.c: what is allocated, and when they panic.
use mmd_os.Base.{
  ℕ, zero, suc, ◌+◌, ◌*◌, ◌^◌, ◌≤◌, ◌<◌, ◌≡◌, arith, true, false, ◌==◌, ◌⊎◌, inl, inr, ne→==, ◌≢◌,
  Outcome, ok, panicked, spinning, ◌>>=◌,
}
use mmd_os.Spinlock.{acquire, release}
use mmd_os.Pmm.{
  Pmm, used, page_size, physical_alloc, alloc_wrapped, alloc_locked, lock_pmm, unlock_pmm,
  pmm_alloc_nozero,
}
use mmd_os.Memory.{IsBytes}
use mmd_os.Pmm.Scan.{
  FreeRun, taken, Found, NotFound, IsMarked, taken-IsMarked, physical_alloc_cases,
}

-- A run of `n` free pages is handed out: its address, and the state that `set_pages` makes.
pub record Taken (n : ℕ) (s : Pmm) (o : Outcome (ℕ × Pmm)) : Type 0 where
  pub page : ℕ
  pub result : o ≡ ok (page * page_size, taken n page s)
  pub positive : 0 < page
  pub fits : page + n ≤ s.bitmap_top_index
  pub free : FreeRun s page n

-- No free run lies wholly above the search index, or wholly below it.
pub record Exhausted (n : ℕ) (s : Pmm) (o : Outcome (ℕ × Pmm)) : Type 0 where
  pub result : o ≡ panicked
  pub above : (p : ℕ) → s.bitmap_prev_index ≤ p → p + n ≤ s.bitmap_top_index → ¬ (FreeRun s p n)
  pub below : (p : ℕ) → p + n ≤ s.bitmap_prev_index → ¬ (FreeRun s p n)

-- A free lock is taken at once, and a taken one is waited for without end.
pub lock_pmm-free : (s : Pmm) → s.lock ≡ 0 → lock_pmm s ≡ ok (record s { lock = 1 })
unfolding lock_pmm acquire
lock_pmm-free s h = ground arith

pub lock_pmm-taken : (s : Pmm) → s.lock ≢ 0 → lock_pmm s ≡ spinning
unfolding lock_pmm acquire
lock_pmm-taken s h = ground arith

module _ (n : ℕ) (some_pages : 0 < n) where
  positive_page : (s : Pmm) (page : ℕ) → used s 0 ≡ true → FreeRun s page n → 0 < page
  positive_page s zero busy free = absurd (cc (busy, free 0 (omega arith) (omega arith)))
  positive_page s (suc p) busy free = omega arith

  not_null : (page : ℕ) → 0 < page → (page * page_size == 0) ≡ false
  not_null page h = ne→== _ _ (omega arith)

  module _ (s : Pmm) (reserved : used s 0 ≡ true) (small : s.bitmap_top_index < 2 ^ 52)
      (start : s.bitmap_prev_index ≤ s.bitmap_top_index) where
    abbrev again : Pmm
    again = record s { bitmap_prev_index = s.bitmap_top_index }

    abbrev rewound : Pmm
    rewound = record s { bitmap_prev_index = 0 }

    abbrev Below : Type 0
    Below = (p : ℕ) → p + n ≤ s.bitmap_prev_index → ¬ (FreeRun s p n)

    wrapped_cases :
        Taken n s (alloc_wrapped n s.bitmap_prev_index again)
        ⊎ ((alloc_wrapped n s.bitmap_prev_index again ≡ panicked) × Below)
    unfolding alloc_wrapped
    wrapped_cases =
        from (
          physical_alloc_cases n s.bitmap_prev_index rewound some_pages (omega arith) (omega arith))
      where
        from :
            Found n s.bitmap_prev_index 0 rewound (physical_alloc n s.bitmap_prev_index rewound)
              ⊎ NotFound n s.bitmap_prev_index 0 rewound
                  (physical_alloc n s.bitmap_prev_index rewound)
            → Taken n s (alloc_wrapped n s.bitmap_prev_index again)
              ⊎ ((alloc_wrapped n s.bitmap_prev_index again ≡ panicked) × Below)
        from (inl f) = inl (record {
          page = f.page;
          result = rw (f.result, not_null f.page (positive_page s f.page reserved f.free));
          positive = positive_page s f.page reserved f.free;
          fits = omega (arith, f.fits);
          free = f.free;
        })
        from (inr f) = inr (rw f.result, λ p h. f.none_free p (omega arith) h)

    alloc_locked_cases : Taken n s (alloc_locked n s) ⊎ Exhausted n s (alloc_locked n s)
    unfolding alloc_locked
    alloc_locked_cases = from (physical_alloc_cases n s.bitmap_top_index s some_pages small start)
      where
        retry :
            ((p : ℕ) → s.bitmap_prev_index ≤ p → p + n ≤ s.bitmap_top_index → ¬ (FreeRun s p n))
            → Taken n s (alloc_wrapped n s.bitmap_prev_index again)
              ⊎ ((alloc_wrapped n s.bitmap_prev_index again ≡ panicked) × Below)
            → Taken n s (alloc_wrapped n s.bitmap_prev_index again)
              ⊎ Exhausted n s (alloc_wrapped n s.bitmap_prev_index again)
        retry above (inl t) = inl t
        retry above (inr (e, below)) = inr (record { result = e; above = above; below = below })

        from :
            Found n s.bitmap_top_index s.bitmap_prev_index s (physical_alloc n s.bitmap_top_index s)
              ⊎ NotFound n s.bitmap_top_index s.bitmap_prev_index s
                  (physical_alloc n s.bitmap_top_index s)
            → Taken n s (alloc_locked n s) ⊎ Exhausted n s (alloc_locked n s)
        from (inl f) = inl (record {
          page = f.page;
          result = rw (f.result, not_null f.page (positive_page s f.page reserved f.free));
          positive = positive_page s f.page reserved f.free;
          fits = f.fits;
          free = f.free;
        })
        from (inr f) = rw f.result (retry f.none_free wrapped_cases)

  pub pmm_alloc_nozero_cases :
      (s : Pmm)
      → s.lock ≡ 0
      → used s 0 ≡ true
      → s.bitmap_top_index < 2 ^ 52
      → s.bitmap_prev_index ≤ s.bitmap_top_index
      → Taken n s (pmm_alloc_nozero n s) ⊎ Exhausted n s (pmm_alloc_nozero n s)
  unfolding pmm_alloc_nozero unlock_pmm release
  pmm_alloc_nozero_cases s unlocked reserved small start =
      rw (lock_pmm-free s unlocked) (from (alloc_locked_cases held reserved small start))
    where
      held : Pmm
      held = record s { lock = 1 }

      from :
          Taken n held (alloc_locked n held) ⊎ Exhausted n held (alloc_locked n held)
          → Taken n s (alloc_locked n held >>= λ r. ok (r.0, record r.1 { lock = 0 }))
            ⊎ Exhausted n s (alloc_locked n held >>= λ r. ok (r.0, record r.1 { lock = 0 }))
      from (inl t) = inl (record {
        page = t.page;
        result = rw t.result (ground arith);
        positive = t.positive;
        fits = t.fits;
        free = t.free;
      })
      from (inr x) = inr (record { result = rw x.result; above = x.above; below = x.below })

-- A run of `n` free pages is handed out: its address, with the pages of the run, and no others,
-- newly in use.
pub record HandedOut (n : ℕ) (s : Pmm) (o : Outcome (ℕ × Pmm)) : Type 0 where
  pub page : ℕ
  pub after : Pmm
  pub result : o ≡ ok (page * page_size, after)
  pub marked : IsMarked n page s after
  pub positive : 0 < page
  pub fits : page + n ≤ s.bitmap_top_index
  pub free : FreeRun s page n

Taken→HandedOut :
    (n : ℕ) (s : Pmm) (o : Outcome (ℕ × Pmm))
    → IsBytes s.mem
    → Taken n s o ⊎ Exhausted n s o
    → HandedOut n s o ⊎ Exhausted n s o
Taken→HandedOut n s o bytes (inr x) = inr x
Taken→HandedOut n s o bytes (inl t) = inl (record {
  page = t.page;
  after = taken n t.page s;
  result = t.result;
  marked = taken-IsMarked n t.page s bytes;
  positive = t.positive;
  fits = t.fits;
  free = t.free;
})

-- For one page or more, from a free lock, with page 0 in use, a top index below 2 ^ 52, the search
-- index up to the top and memory of bytes, `pmm_alloc_nozero` either returns the address of a free
-- run of `n` pages below the top, other than NULL, and then a page is in use exactly if it was
-- before or lies in that run, and the lock is free again; or it panics, and then no free run of `n`
-- pages lies wholly above the search index or wholly below it.
pub pmm_alloc_nozero_total :
    (n : ℕ) (s : Pmm)
    → 0 < n
    → s.lock ≡ 0
    → used s 0 ≡ true
    → s.bitmap_top_index < 2 ^ 52
    → s.bitmap_prev_index ≤ s.bitmap_top_index
    → IsBytes s.mem
    → HandedOut n s (pmm_alloc_nozero n s) ⊎ Exhausted n s (pmm_alloc_nozero n s)
pmm_alloc_nozero_total n s some_pages unlocked reserved small start bytes =
    Taken→HandedOut n s (pmm_alloc_nozero n s) bytes
      (pmm_alloc_nozero_cases n some_pages s unlocked reserved small start)
