-- ===== src/Pmm/Client.antt =====
-- What a caller of kernel/mm/pmm.c can rely on over several calls of `pmm_alloc_nozero` and
-- `pmm_free`.
use mmd_os.Base.{
  ℕ, ◌+◌, ◌*◌, ◌/◌, ◌^◌, ◌≤◌, ◌<◌, ◌≡◌, arith, true, false, ◌&&◌, ◌||◌, ◌⊎◌, inl, inr, Outcome, ok,
  panicked,
}
use mmd_os.Memory.{IsBytes}
use mmd_os.Pmm.{Pmm, used, page_size, pmm_alloc_nozero, pmm_free}
use mmd_os.Pmm.Scan.{in_run, FreeRun, taken, set_pages-get, set_pages-IsBytes}
use mmd_os.Pmm.Alloc.{Taken, Exhausted, pmm_alloc_nozero_cases}
use mmd_os.Pmm.Free.{Freed, pmm_free_exact, pmm_free_panics}

-- Between calls: the lock is free, page 0 is in use, memory holds bytes, the index is in range.
pub record IsValid (s : Pmm) : Type 0 where
  pub unlocked : s.lock ≡ 0
  pub reserved : used s 0 ≡ true
  pub small : s.bitmap_top_index < 2 ^ 52
  pub start : s.bitmap_prev_index ≤ s.bitmap_top_index
  pub bytes : IsBytes s.mem

-- An allocation that returned, read back.
pub record Granted (n : ℕ) (s : Pmm) (address : ℕ) (s' : Pmm) : Type 0 where
  pub page : ℕ
  pub at : address ≡ page * page_size
  pub state : s' ≡ taken n page s
  pub positive : 0 < page
  pub fits : page + n ≤ s.bitmap_top_index
  pub free : FreeRun s page n

Taken→Granted :
    {n : ℕ} {s : Pmm} {address : ℕ} {s' : Pmm} (o : Outcome (ℕ × Pmm))
    → o ≡ ok (address, s')
    → Taken n s o ⊎ Exhausted n s o
    → Granted n s address s'
Taken→Granted o e (inl t) = record {
  page = t.page;
  at = cc (e, t.result);
  state = cc (e, t.result);
  positive = t.positive;
  fits = t.fits;
  free = t.free;
}
Taken→Granted o e (inr x) = absurd (cc (e, x.result))

module _ (n : ℕ) (some_pages : 0 < n) {s : Pmm} (v : IsValid s) where
  pub alloc-Granted :
      {address : ℕ} {s' : Pmm} → pmm_alloc_nozero n s ≡ ok (address, s') → Granted n s address s'
  alloc-Granted e =
      Taken→Granted (pmm_alloc_nozero n s) e
        (pmm_alloc_nozero_cases n some_pages s v.unlocked v.reserved v.small v.start)

  taken-used : (page j : ℕ) → used (taken n page s) j ≡ (in_run page n j || used s j)
  taken-used page j = set_pages-get n s.bitmap s.mem page j v.bytes

  taken-IsValid : (page : ℕ) → page + n ≤ s.bitmap_top_index → IsValid (taken n page s)
  taken-IsValid page fits = record {
    unlocked = v.unlocked;
    reserved = ground (arith, taken-used page 0, v.reserved);
    small = v.small;
    start = fits;
    bytes = set_pages-IsBytes n s.bitmap s.mem page v.bytes;
  }

  -- An allocation that returns keeps the allocator valid.
  pub alloc-IsValid :
      {address : ℕ} {s' : Pmm} → pmm_alloc_nozero n s ≡ ok (address, s') → IsValid s'
  alloc-IsValid e = let g = alloc-Granted e in rw g.state (taken-IsValid g.page g.fits)

  page_of : {address : ℕ} {s' : Pmm} (g : Granted n s address s') → address / page_size ≡ g.page
  page_of g = omega (arith, g.at)

  -- From a valid allocator, after a call of `pmm_alloc_nozero` for one page or more that returned, a
  -- page is in use exactly if it was before or lies in the run that was returned, and no page of that
  -- run was in use before.
  pub alloc_marks :
      {address : ℕ} {s' : Pmm}
      → pmm_alloc_nozero n s ≡ ok (address, s')
      → (j : ℕ)
      → (used s' j ≡ (in_run (address / page_size) n j || used s j))
        × ((in_run (address / page_size) n j && used s j) ≡ false)
  alloc_marks e j =
      let g = alloc-Granted e in
      (rw (page_of g, g.state) (taken-used g.page j), rw (page_of g) (ground (arith, g.free j)))

  -- From a valid allocator, giving back an allocation of one page or more that returned succeeds, and
  -- leaves every page as it was before the allocation.
  pub free-alloc :
      {address : ℕ} {s' : Pmm}
      → pmm_alloc_nozero n s ≡ ok (address, s')
      → (s'' : Pmm) × (pmm_free address n s' ≡ ok s'') × ((j : ℕ) → used s'' j ≡ used s j)
  free-alloc {address} {s'} e = (
    freed.after,
    freed.result,
    λ j. ground (arith, freed.bits j, (alloc_marks e j).0, (alloc_marks e j).1),
  )
    where
      v' : IsValid s'
      v' = alloc-IsValid e

      freed : Freed n (address / page_size) s' (pmm_free address n s')
      freed =
          pmm_free_exact s' v'.unlocked v'.bytes address n
            (λ j h k. ground (arith, (alloc_marks e j).0))

-- From a valid allocator, two allocations of one page or more that return, with no free between
-- them, share no page.
pub alloc_disjoint :
    (n k : ℕ) {s : Pmm} {a b : ℕ} {s' s'' : Pmm}
    → IsValid s
    → 0 < n
    → 0 < k
    → pmm_alloc_nozero n s ≡ ok (a, s')
    → pmm_alloc_nozero k s' ≡ ok (b, s'')
    → (a / page_size + n ≤ b / page_size) ⊎ (b / page_size + k ≤ a / page_size)
alloc_disjoint n k {s} {a} {b} {s'} {s''} v some_pages h e f = ground (
  arith,
  (alloc_marks n some_pages v e (a / page_size)).0,
  (alloc_marks n some_pages v e (b / page_size)).0,
  (second (a / page_size)).1,
  (second (b / page_size)).1,
)
  where
    second :
        (j : ℕ)
        → (used s'' j ≡ (in_run (b / page_size) k j || used s' j))
          × ((in_run (b / page_size) k j && used s' j) ≡ false)
    second = alloc_marks k h (alloc-IsValid n some_pages v e) f

-- From a valid allocator, giving back one page or more that are all in use, and then giving the same
-- pages back again, panics.
pub double_free :
    (n address : ℕ) {s s' : Pmm}
    → IsValid s
    → 0 < n
    → ((j : ℕ) → address / page_size ≤ j → j < address / page_size + n → used s j ≡ true)
    → pmm_free address n s ≡ ok s'
    → pmm_free address n s' ≡ panicked
double_free n address {s} {s'} v h busy e =
    pmm_free_panics s' (rw same freed.lock) (rw same freed.bytes) address n (address / page_size)
      (omega arith) (omega arith) (rw same (ground (arith, freed.bits (address / page_size))))
  where
    freed : Freed n (address / page_size) s (pmm_free address n s)
    freed = pmm_free_exact s v.unlocked v.bytes address n busy

    same : s' ≡ freed.after
    same = cc (e, freed.result)
