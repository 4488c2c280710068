-- ===== src/Pmm/Zero.antt =====
-- `pmm_alloc` of kernel/mm/pmm.c: the pages that it returns read as zero through the direct map.
use mmd_os.Base.{
  ℕ, ◌+◌, ◌*◌, ◌/◌, ◌^◌, ◌≤◌, ◌<◌, ◌≡◌, arith, ◌&&◌, ◌||◌, if◌then◌else◌, ltb, leb, ◌⊎◌, u64, ap,
  ne→==, ok, ◌∙◌, >>=-eq-ok,
}
use mmd_os.Memory.{Memory, memset}
use mmd_os.Memory.Regions.{memset_lem}
use mmd_os.Pmm.{Pmm, used, page_size, bitmap_get, zero_pages, pmm_alloc_nozero, pmm_alloc}
use mmd_os.Pmm.Scan.{in_run}
use mmd_os.Pmm.Client.{IsValid, Granted, alloc-Granted, alloc_marks}

-- The direct map of the run from `address` on does not reach the bytes of the bitmap.
abbrev pub Apart : ℕ → ℕ → Pmm → Type 0
Apart n address s =
    (address + s.hhdm_offset + n * page_size ≤ s.bitmap)
    ⊎ (s.bitmap + s.bitmap_top_index / 8 < address + s.hhdm_offset)

get-same :
    (m m' : Memory) (bitmap j : ℕ)
    → m (bitmap + j / 8) ≡ m' (bitmap + j / 8)
    → bitmap_get m bitmap j ≡ bitmap_get m' bitmap j
unfolding bitmap_get
get-same m m' bitmap j e = rw e

module _ (n : ℕ) (some_pages : 0 < n) {s : Pmm} (v : IsValid s)
    (room : s.bitmap_top_index * page_size + s.hhdm_offset < 2 ^ 64) where
  -- What is known of a zeroed run.
  pub record Zeroed (address : ℕ) (s' : Pmm) : Type 0 where
    pub zeroes :
        (q : ℕ)
        → address + s.hhdm_offset ≤ q
        → q < address + s.hhdm_offset + n * page_size
        → s'.mem q ≡ 0
    pub marks :
        (j : ℕ)
        → j ≤ s.bitmap_top_index
        → used s' j ≡ (in_run (address / page_size) n j || used s j)

  zeroed :
      (address : ℕ) (s' : Pmm)
      → pmm_alloc_nozero n s ≡ ok (address, s')
      → Apart n address s
      → Zeroed address (zero_pages n address s')
  unfolding zero_pages
  zeroed address s' e apart = rw (ne→== address 0 (omega (arith, g.at, g.positive))) (record {
    zeroes = λ q h k. ground (arith, fill q, offset, wide);
    marks = λ j h.
        get-same (cleared) s'.mem s'.bitmap j
          (ground (arith, fill (s'.bitmap + j / 8), offset, wide, base, apart))
        ∙ (alloc_marks n some_pages v e j).0;
  })
    where
      g : Granted n s address s'
      g = alloc-Granted n some_pages v e

      cleared : Memory
      cleared = memset s'.mem (u64 (address + s'.hhdm_offset)) 0 (u64 (n * page_size))

      fill :
          (q : ℕ)
          → cleared q ≡ (
              if leb (u64 (address + s'.hhdm_offset)) q
                && ltb q (u64 (address + s'.hhdm_offset) + u64 (n * page_size))
              then 0
              else s'.mem q)
      fill q = memset_lem s'.mem (u64 (address + s'.hhdm_offset)) 0 (u64 (n * page_size)) q

      offset : s'.hhdm_offset ≡ s.hhdm_offset
      offset = ap (λ (t : Pmm). t.hhdm_offset) g.state

      base : s'.bitmap ≡ s.bitmap
      base = ap (λ (t : Pmm). t.bitmap) g.state

      wide :
          (u64 (address + s.hhdm_offset) ≡ address + s.hhdm_offset)
          × (u64 (n * page_size) ≡ n * page_size)
      wide = omega (arith, g.at, g.fits)

  -- From a valid allocator, a call of `pmm_alloc` for one page or more that returns, where the
  -- direct map fits the address space and that of the run does not meet the bitmap, leaves zeroes in
  -- the run, and leaves in use up to the top index the pages that were and those of the run.
  pub pmm_alloc_zeroes :
      {address : ℕ} {s' : Pmm}
      → pmm_alloc n s ≡ ok (address, s')
      → Apart n address s
      → Zeroed address s'
  unfolding pmm_alloc
  pmm_alloc_zeroes {address} {s'} e apart =
      let (r, granted, done) = >>=-eq-ok (pmm_alloc_nozero n s) _ e in
      let ea : r.0 ≡ address = cc done in
      let es : zero_pages n r.0 r.1 ≡ s' = cc done in
      rw (← ea, ← es) (zeroed r.0 r.1 granted (rw ea apart))
