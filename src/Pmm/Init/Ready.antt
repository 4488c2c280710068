-- ===== src/Pmm/Init/Ready.antt =====
-- `pmm_init` of kernel/mm/pmm.c leaves a valid allocator, or panics where no entry takes the bitmap.
use mmd_os.Base.{
  ◌++◌, ◌||◌, ◌-◌, sym, ℕ, ◌+◌, ◌*◌, ◌/◌, ◌%◌, ◌^◌, ◌≤◌, ◌<◌, ◌≡◌, refl, arith, true, false, not,
  ◌&&◌, if◌then◌else◌, leb, Bool-cases, ◌⊎◌, inl, inr, u64, ap, le→ltb, ne→==, ◌∙◌, ◌≢◌, Outcome,
  ok, panicked, List, [], ◌∷◌, length,
}
use mmd_os.Memory.{IsBytes}
use mmd_os.Pmm.{Pmm, used, page_size, bitmap_get}
use mmd_os.Pmm.Client.{IsValid}
use mmd_os.Pmm.Init.{
  Entry, is_usable, highest, Placed, place, clear_entries, bitmap_size, pmm_init, raise,
}
use mmd_os.Pmm.Init.Laws.{covers, covered, AllSmall, clear_entries-get}
use mmd_os.Pmm.Init.Marks.{
  IsPlaced, place_lem, AllShort, place-none, place-first, covered-++, covers-shrunk, AllSmall-at,
}

highest-lt : (es : List Entry) (a : ℕ) → a < 2 ^ 64 → highest es a < 2 ^ 64
unfolding highest
highest-lt [] a h = h
highest-lt (e ∷ es) a h =
    highest-lt es (if is_usable e then raise a (u64 (e.base + e.len)) else a) (ground arith)

size-pos : (top : ℕ) → top < 2 ^ 52 → 8 ≤ top → 0 < 8 * bitmap_size top
unfolding bitmap_size
size-pos top small room = omega arith

size-wide : (top : ℕ) → top < 2 ^ 52 → top ≤ 8 * bitmap_size top + 7
unfolding bitmap_size
size-wide top small = omega arith

size-whole : (top : ℕ) → bitmap_size top % page_size ≡ 0
unfolding bitmap_size
size-whole top = omega arith

-- No usable entry ends above page `top`.
abbrev pub AllBelow : ℕ → List Entry → Type 0
AllBelow top [] = Unit {0}
AllBelow top (e ∷ es) =
    ((is_usable e ≡ false) ⊎ ((e.base + e.len) / page_size ≤ top)) × AllBelow top es

highest-most : (es : List Entry) (a : ℕ) → a ≤ highest es a
unfolding highest
highest-most [] a = omega arith
highest-most (e ∷ es) a =
    ground (arith, highest-most es (if is_usable e then raise a (u64 (e.base + e.len)) else a))

highest-AllBelow :
    (es : List Entry) (a top : ℕ) → AllSmall es → highest es a / page_size ≤ top → AllBelow top es
unfolding highest
highest-AllBelow [] a top small h = tt
highest-AllBelow (e ∷ es) a top small h = (
  elim (Bool-cases (is_usable e)) [
    | inl u ↦ inr (
        ground
          (arith, u, highest-most es (if is_usable e then raise a (u64 (e.base + e.len)) else a)))
    | inr n ↦ inl n
  ],
  highest-AllBelow es (if is_usable e then raise a (u64 (e.base + e.len)) else a) top small.1 h,
)

module _ (before : List Entry) (e : Entry) (behind : List Entry) (offset : ℕ) (s : Pmm) where
  -- The memory map that the boot protocol gave.
  abbrev pub map : List Entry
  map = before ++ e ∷ behind

  abbrev pub size : ℕ
  size = bitmap_size (highest map 0 / page_size)

  -- The bitmap lies at the start of `e`. A page is free exactly if a usable entry has it and it is
  -- not one of the bitmap's own.
  pub record Ready (o : Outcome Pmm) : Type 0 where
    pub after : Pmm
    pub result : o ≡ ok after
    pub lies : after.bitmap ≡ u64 (e.base + offset)
    pub top : AllBelow after.bitmap_top_index map
    pub top_index : after.bitmap_top_index ≡ highest map 0 / page_size
    pub wide : after.bitmap_top_index ≤ 8 * size + 7
    pub bits :
        (i : ℕ)
        → i < 8 * size
        → used after i
          ≡ not (
              covered before i
              || (covers e i && leb ((e.base + size) / page_size) i)
              || covered behind i)
    pub bytes : IsBytes after.mem
    pub offset_kept : after.hhdm_offset ≡ offset
    pub lock : after.lock ≡ s.lock
    pub index : after.bitmap_prev_index ≡ s.bitmap_prev_index

  -- With at most 255 entries whose ends do not wrap and memory of bytes, where `e` is the first
  -- usable entry that is long enough for the bitmap, and the bitmap's address is not NULL,
  -- `pmm_init` succeeds. The bitmap is at the start of `e`; of the pages that it has a bit for,
  -- those are free that a usable entry has and that are not the bitmap's own, and no others; no
  -- usable entry ends above the top index; and the bitmap has a bit for every page below the top but
  -- at most seven.
  pub pmm_init-Ready :
      length map ≤ 255
      → AllSmall map
      → AllShort size before
      → is_usable e ≡ true
      → size ≤ e.len
      → u64 (e.base + offset) ≢ 0
      → IsBytes s.mem
      → Ready (pmm_init map offset s)
  unfolding pmm_init
  pmm_init-Ready few small short usable fits hole bytes =
      rw (le→ltb 255 (length map) few, ne→== placed.bitmap 0 nonzero)
        (record {
          after = _;
          result = refl;
          lies = first.0;
          top = highest-AllBelow map 0 (highest map 0 / page_size) small (omega arith);
          top_index = refl;
          wide =
              size-wide (highest map 0 / page_size) (omega (arith, highest-lt map 0 (omega arith)));
          bits = marks;
          bytes = (clear_entries-get placed.bitmap placed.entries placed.mem 0 p.bytes p.small).0;
          offset_kept = refl;
          lock = refl;
          index = refl;
        })
    where
      placed : Placed
      placed = place size offset map s.mem

      rest : Entry
      rest = record e { base = u64 (e.base + size); len = e.len - size }

      first : (placed.bitmap ≡ u64 (e.base + offset)) × (placed.entries ≡ before ++ rest ∷ behind)
      first = place-first size offset before e behind s.mem short usable fits

      nonzero : placed.bitmap ≢ 0
      nonzero z = hole (sym first.0 ∙ z)

      p : IsPlaced size placed
      p = place_lem size offset map s.mem bytes small

      marks :
          (i : ℕ)
          → i < 8 * size
          → bitmap_get (clear_entries placed.bitmap placed.entries placed.mem) placed.bitmap i
            ≡ not (
                covered before i
                || (covers e i && leb ((e.base + size) / page_size) i)
                || covered behind i)
      marks i h = ground (
        arith,
        (clear_entries-get placed.bitmap placed.entries placed.mem i p.bytes p.small).1,
        p.all_used nonzero i h,
        ap (λ es. covered es i) first.1,
        covered-++ before (rest ∷ behind) i,
        covers-shrunk size i e usable (AllSmall-at before e behind small) fits
            (size-whole (highest map 0 / page_size)),
      )

  -- After that the allocator is valid, if there are eight pages or more, page 0 does not belong to a
  -- usable entry, the lock is free and the search index is 0.
  pub init-IsValid :
      length map ≤ 255
      → AllSmall map
      → AllShort size before
      → is_usable e ≡ true
      → size ≤ e.len
      → u64 (e.base + offset) ≢ 0
      → IsBytes s.mem
      → s.lock ≡ 0
      → s.bitmap_prev_index ≡ 0
      → covered map 0 ≡ false
      → 8 ≤ highest map 0 / page_size
      → {s' : Pmm} → pmm_init map offset s ≡ ok s'
      → IsValid s'
  init-IsValid few small short usable fits hole bytes unlocked start spare room {s'} done =
      rw same (record {
        unlocked = r.lock ∙ unlocked;
        reserved = ground (
          arith,
          r.bits 0 (size-pos (highest map 0 / page_size) top_small room),
          spare,
          covered-++ before (e ∷ behind) 0,
        );
        small = omega (arith, r.top_index, top_small);
        start = omega (arith, r.index);
        bytes = r.bytes;
      })
    where
      r : Ready (pmm_init map offset s)
      r = pmm_init-Ready few small short usable fits hole bytes

      same : s' ≡ r.after
      same = cc (done, r.result)

      top_small : highest map 0 / page_size < 2 ^ 52
      top_small = omega (arith, highest-lt map 0 (omega arith))

module _ (entries : List Entry) (offset : ℕ) (s : Pmm) where
  abbrev top : ℕ
  top = highest entries 0 / page_size

  -- With at most 255 entries, of which none is both usable and long enough for the bitmap, `pmm_init`
  -- panics.
  pub pmm_init_panics :
      length entries ≤ 255
      → AllShort (bitmap_size top) entries
      → pmm_init entries offset s ≡ panicked
  unfolding pmm_init
  pmm_init_panics few short =
      rw (le→ltb 255 (length entries) few, place-none (bitmap_size top) offset entries s.mem short)
