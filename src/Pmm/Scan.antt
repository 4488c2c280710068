-- ===== src/Pmm/Scan.antt =====
-- `physical_alloc` of kernel/mm/pmm.c is a first-fit search for a run of free pages.
use mmd_os.Base.{
  ℕ, zero, suc, ◌+◌, ◌-◌, ◌*◌, ◌^◌, ◌≤◌, ◌<◌, ◌≡◌, refl, arith, Bool, true, false, ◌&&◌, ◌||◌, ltb,
  leb, Bool-cases, ◌⊎◌, inl, inr, u64, dec_lt, ℕ_discrete, lt→ltb, eq→==, ne→==, sub64, ◌≢◌,
}
use mmd_os.Memory.{Memory, IsBytes}
use mmd_os.Pmm.{
  Pmm, used, bitmap_get, bitmap_set, set_pages, page_size, advance, claim, scan, physical_alloc,
}
use mmd_os.Pmm.Bits.{get-set, set-IsBytes}

-- Pages `page` up to `page + n`, as a test.
abbrev pub in_run : ℕ → ℕ → ℕ → Bool
in_run page n j = leb page j && ltb j (page + n)

pub set_pages-get :
    (n bitmap : ℕ) (m : Memory) (i j : ℕ)
    → IsBytes m
    → bitmap_get (set_pages n bitmap m i) bitmap j ≡ (in_run i n j || bitmap_get m bitmap j)
unfolding set_pages
set_pages-get zero bitmap m i j bytes = ground arith
set_pages-get (suc n) bitmap m i j bytes = ground (
  arith,
  set_pages-get n bitmap (bitmap_set m bitmap i) (i + 1) j (set-IsBytes m bitmap i bytes),
  get-set m bitmap i j bytes,
)

pub set_pages-IsBytes :
    (n bitmap : ℕ) (m : Memory) (i : ℕ) → IsBytes m → IsBytes (set_pages n bitmap m i)
unfolding set_pages
set_pages-IsBytes zero bitmap m i bytes = bytes
set_pages-IsBytes (suc n) bitmap m i bytes =
    set_pages-IsBytes n bitmap (bitmap_set m bitmap i) (i + 1) (set-IsBytes m bitmap i bytes)

abbrev pub FreeRun : Pmm → ℕ → ℕ → Type 0
FreeRun s page n = (j : ℕ) → page ≤ j → j < page + n → used s j ≡ false

-- The state after the `n` pages from `page` on are taken.
abbrev pub taken : ℕ → ℕ → Pmm → Pmm
taken n page s = record s { mem = set_pages n s.bitmap s.mem page; bitmap_prev_index = page + n }

-- The first free run of `n` pages from `lo` on that ends by `limit`, and the state that `set_pages`
-- makes.
pub record Found (n limit lo : ℕ) (s : Pmm) (r : ℕ × Pmm) : Type 0 where
  pub page : ℕ
  pub result : r ≡ (page * page_size, taken n page s)
  pub above : lo ≤ page
  pub fits : page + n ≤ limit
  pub free : FreeRun s page n
  pub first : (p : ℕ) → lo ≤ p → p < page → ¬ (FreeRun s p n)

pub record NotFound (n limit lo : ℕ) (s : Pmm) (r : ℕ × Pmm) : Type 0 where
  pub result : r ≡ (0, record s { bitmap_prev_index = limit })
  pub none_free : (p : ℕ) → lo ≤ p → p + n ≤ limit → ¬ (FreeRun s p n)

-- What holds at the head of the loop, with `c` the consecutive free pages just before the index.
record Inv (rounds n limit lo c : ℕ) (s : Pmm) : Type 0 where
  small : limit < 2 ^ 52
  left : s.bitmap_prev_index + rounds ≡ limit
  count : c < n
  back : lo + c ≤ s.bitmap_prev_index
  run : (j : ℕ) → s.bitmap_prev_index ≤ j + c → j < s.bitmap_prev_index → used s j ≡ false
  passed : (p : ℕ) → lo ≤ p → p + c < s.bitmap_prev_index → ¬ (FreeRun s p n)

Inv-end : {n limit lo c : ℕ} {s : Pmm} → Inv zero n limit lo c s → NotFound n limit lo s (0, s)
Inv-end {n} {limit} {lo} {c} {s} inv = record {
  result = ground arith;
  none_free = λ p above fits. inv.passed p above (omega arith);
}

Inv-skip :
    {rounds n limit lo c : ℕ} {s : Pmm}
    → Inv (suc rounds) n limit lo c s
    → used s s.bitmap_prev_index ≡ true
    → Inv rounds n limit lo 0 (advance s)
Inv-skip {n = n} {lo = lo} {c = c} {s = s} inv busy = record {
  small = inv.small;
  left = omega arith;
  count = omega arith;
  back = omega arith;
  run = λ j h k. absurd (omega arith);
  passed = λ p above h free. elim (dec_lt (p + c) s.bitmap_prev_index) [
    | yes q ↦ inv.passed p above q free
    | no q ↦ cc (busy, free s.bitmap_prev_index (omega arith) (omega arith))
  ];
}

Inv-more :
    {rounds n limit lo c : ℕ} {s : Pmm}
    → Inv (suc rounds) n limit lo c s
    → used s s.bitmap_prev_index ≡ false
    → u64 (c + 1) ≢ n
    → Inv rounds n limit lo (u64 (c + 1)) (advance s)
Inv-more {n = n} {lo = lo} {c = c} {s = s} inv idle more = record {
  small = inv.small;
  left = omega arith;
  count = omega arith;
  back = omega arith;
  run = λ j h k. elim (ℕ_discrete j s.bitmap_prev_index) [
    | yes e ↦ rw e idle
    | no ne ↦ inv.run j (omega arith) (omega arith)
  ];
  passed = λ p above h. inv.passed p above (omega arith);
}

Inv-claim :
    {rounds n limit lo c : ℕ} {s : Pmm}
    → Inv (suc rounds) n limit lo c s
    → used s s.bitmap_prev_index ≡ false
    → u64 (c + 1) ≡ n
    → Found n limit lo s (claim n (advance s))
unfolding claim
Inv-claim {n = n} {lo = lo} {c = c} {s = s} inv idle done = record {
  page = s.bitmap_prev_index - c;
  result = rw index (ground arith);
  above = omega arith;
  fits = omega arith;
  free = λ j h k. elim (ℕ_discrete j s.bitmap_prev_index) [
    | yes e ↦ rw e idle
    | no ne ↦ inv.run j (omega arith) (omega arith)
  ];
  first = λ p above h. inv.passed p above (omega arith);
}
  where
    index : sub64 (u64 (s.bitmap_prev_index + 1)) n ≡ s.bitmap_prev_index - c
    index = omega arith

-- The loop index is no part of what is searched.
from_advance :
    {n limit lo : ℕ} {s : Pmm} {r : ℕ × Pmm}
    → Found n limit lo (advance s) r ⊎ NotFound n limit lo (advance s) r
    → Found n limit lo s r ⊎ NotFound n limit lo s r
from_advance (inl f) = inl (record {
  page = f.page;
  result = f.result;
  above = f.above;
  fits = f.fits;
  free = f.free;
  first = f.first;
})
from_advance (inr f) = inr (record { result = f.result; none_free = f.none_free })

scan_lem :
    (rounds n limit lo c : ℕ) (s : Pmm)
    → Inv rounds n limit lo c s
    → Found n limit lo s (scan rounds n limit c s) ⊎ NotFound n limit lo s (scan rounds n limit c s)
unfolding scan
scan_lem zero n limit lo c s inv = inr (Inv-end inv)
scan_lem (suc rounds) n limit lo c s inv =
    rw inside (elim (Bool-cases (used s s.bitmap_prev_index)) [
      | inl busy ↦ rw busy (from_advance (scan_lem rounds n limit lo 0 _ (Inv-skip inv busy)))
      | inr idle ↦ rw idle (elim (ℕ_discrete (u64 (c + 1)) n) [
        | yes done ↦ rw (eq→== _ _ done) (inl (Inv-claim inv idle done))
        | no more ↦
            rw (ne→== _ _ more)
              (from_advance (scan_lem rounds n limit lo (u64 (c + 1)) _ (Inv-more inv idle more)))
      ])
    ])
  where
    inside : ltb s.bitmap_prev_index limit ≡ true
    inside = lt→ltb _ _ (omega (arith, inv.left))

module _ (n limit : ℕ) (s : Pmm) (some_pages : 0 < n) (small : limit < 2 ^ 52) where
  pub physical_alloc_cases :
      s.bitmap_prev_index ≤ limit
      → let r = physical_alloc n limit s in
        Found n limit s.bitmap_prev_index s r ⊎ NotFound n limit s.bitmap_prev_index s r
  unfolding physical_alloc
  physical_alloc_cases start =
      scan_lem (limit - s.bitmap_prev_index) n limit s.bitmap_prev_index 0 s (record {
        small = small;
        left = omega arith;
        count = some_pages;
        back = omega arith;
        run = λ j h k. absurd (omega arith);
        passed = λ p above h. absurd (omega arith);
      })

-- Of the pages, those of the run are in use now; the index is behind it, and the rest is as before.
pub record IsMarked (n page : ℕ) (s after : Pmm) : Type 0 where
  pub marks : (j : ℕ) → used after j ≡ (in_run page n j || used s j)
  pub index : after.bitmap_prev_index ≡ page + n
  pub kept : after ≡ record s { mem = after.mem; bitmap_prev_index = after.bitmap_prev_index }

pub taken-IsMarked : (n page : ℕ) (s : Pmm) → IsBytes s.mem → IsMarked n page s (taken n page s)
taken-IsMarked n page s bytes = record {
  marks = λ j. set_pages-get n s.bitmap s.mem page j bytes;
  index = refl;
  kept = refl;
}

-- The first free run of `n` pages from `lo` on that ends by `limit` is handed out.
pub record FoundRun (n limit lo : ℕ) (s : Pmm) (r : ℕ × Pmm) : Type 0 where
  pub page : ℕ
  pub after : Pmm
  pub result : r ≡ (page * page_size, after)
  pub marked : IsMarked n page s after
  pub above : lo ≤ page
  pub fits : page + n ≤ limit
  pub free : FreeRun s page n
  pub first : (p : ℕ) → lo ≤ p → p < page → ¬ (FreeRun s p n)

module _ (n limit : ℕ) (s : Pmm) (some_pages : 0 < n) (small : limit < 2 ^ 52) where
  -- For one page or more, a limit below 2 ^ 52, an index up to the limit and memory of bytes,
  -- `physical_alloc` takes the first free run of `n` pages between the index and `limit`: it returns
  -- its address, and then a page is in use exactly if it was before or lies in the run, and the
  -- index is behind the run. Where there is none it returns NULL, changes no bit and leaves the
  -- index at `limit`.
  pub physical_alloc_first_fit :
      s.bitmap_prev_index ≤ limit
      → IsBytes s.mem
      → let r = physical_alloc n limit s in
        FoundRun n limit s.bitmap_prev_index s r ⊎ NotFound n limit s.bitmap_prev_index s r
  physical_alloc_first_fit start bytes =
      from (physical_alloc_cases n limit s some_pages small start)
    where
      from :
          Found n limit s.bitmap_prev_index s (physical_alloc n limit s)
            ⊎ NotFound n limit s.bitmap_prev_index s (physical_alloc n limit s)
          → FoundRun n limit s.bitmap_prev_index s (physical_alloc n limit s)
            ⊎ NotFound n limit s.bitmap_prev_index s (physical_alloc n limit s)
      from (inr none) = inr none
      from (inl f) = inl (record {
        page = f.page;
        after = taken n f.page s;
        result = f.result;
        marked = taken-IsMarked n f.page s bytes;
        above = f.above;
        fits = f.fits;
        free = f.free;
        first = f.first;
      })
