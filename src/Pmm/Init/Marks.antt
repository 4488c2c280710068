-- ===== src/Pmm/Init/Marks.antt =====
-- What the second loop of `pmm_init` of kernel/mm/pmm.c leaves: where the bitmap lies, all its bits
-- set.
use mmd_os.Base.{
  ◌-◌, ◌||◌, ◌++◌, ℕ, ◌+◌, ◌*◌, ◌/◌, ◌%◌, ◌^◌, ◌≤◌, ◌<◌, ◌≡◌, refl, arith, true, false, ◌&&◌, leb,
  ◌!=◌, Bool-cases, ◌⊎◌, inl, inr, u64, ap, ◌≢◌, List, [], ◌∷◌, all_below, all_below_lem, bit_and,
}
use mmd_os.Memory.{Memory, IsBytes, memset}
use mmd_os.Memory.Regions.{memset_lem, memset-IsBytes}
use mmd_os.Pmm.{page_size, bitmap_get}
use mmd_os.Pmm.Init.{Entry, is_usable, Placed, place}
use mmd_os.Pmm.Init.Laws.{covers, covered, AllSmall}

ones_table : all_below 8 (λ k. bit_and 255 (2 ^ k) != 0) ≡ true
unfolding all_below
ones_table = refl

memset-get :
    (m : Memory) (bitmap size i : ℕ)
    → i < 8 * size
    → bitmap_get (memset m bitmap 255 size) bitmap i ≡ true
unfolding bitmap_get
memset-get m bitmap size i h = ground (
  arith,
  memset_lem m bitmap 255 size (bitmap + i / 8),
  all_below_lem 8 (λ k. bit_and 255 (2 ^ k) != 0) ones_table (i % 8) (omega arith),
)

-- What the second loop of `pmm_init` leaves.
pub record IsPlaced (size : ℕ) (p : Placed) : Type 0 where
  pub bytes : IsBytes p.mem
  pub small : AllSmall p.entries
  pub all_used : p.bitmap ≢ 0 → (i : ℕ) → i < 8 * size → bitmap_get p.mem p.bitmap i ≡ true

pub place_lem :
    (size hhdm : ℕ) (es : List Entry) (m : Memory)
    → IsBytes m
    → AllSmall es
    → IsPlaced size (place size hhdm es m)
unfolding place
place_lem size hhdm [] m bytes small = record {
  bytes = bytes;
  small = tt;
  all_used = λ ne. absurd (ne refl);
}
place_lem size hhdm (e ∷ es) m bytes small =
    from (Bool-cases (is_usable e && leb size e.len)) (place_lem size hhdm es m bytes small.1)
  where
    from :
        ((is_usable e && leb size e.len) ≡ true) ⊎ ((is_usable e && leb size e.len) ≡ false)
        → IsPlaced size (place size hhdm es m)
        → IsPlaced size (place size hhdm (e ∷ es) m)
    from (inl here) rest = rw here (record {
      bytes = memset-IsBytes m (u64 (e.base + hhdm)) 255 size bytes;
      small = (ground (arith, small.0), small.1);
      all_used = λ ne. memset-get m (u64 (e.base + hhdm)) size;
    })
    from (inr there) rest =
        rw there
          (record { bytes = rest.bytes; small = (small.0, rest.small); all_used = rest.all_used })

abbrev pub AllShort : ℕ → List Entry → Type 0
AllShort size [] = Unit {0}
AllShort size (e ∷ es) = ((is_usable e ≡ false) ⊎ (e.len < size)) × AllShort size es

pub place-none :
    (size hhdm : ℕ) (es : List Entry) (m : Memory)
    → AllShort size es
    → (place size hhdm es m).bitmap ≡ 0
unfolding place
place-none size hhdm [] m short = refl
place-none size hhdm (e ∷ es) m short = ground (arith, place-none size hhdm es m short.1)

-- Behind entries that do not take the bitmap, the first that does gives it its first `size` bytes.
pub place-first :
    (size hhdm : ℕ) (before : List Entry) (e : Entry) (behind : List Entry) (m : Memory)
    → AllShort size before
    → is_usable e ≡ true
    → size ≤ e.len
    → let p = place size hhdm (before ++ e ∷ behind) m in
      (p.bitmap ≡ u64 (e.base + hhdm))
      × (p.entries ≡ before ++ record e { base = u64 (e.base + size); len = e.len - size } ∷ behind)
unfolding place
place-first size hhdm [] e behind m short usable fits = rw both (refl, refl)
  where
    both : (is_usable e && leb size e.len) ≡ true
    both = ground (arith, usable)
place-first size hhdm (d ∷ before) e behind m short usable fits =
    let rest = place-first size hhdm before e behind m short.1 usable fits in
    rw passed (rest.0, ap (λ es. d ∷ es) rest.1)
  where
    passed : (is_usable d && leb size d.len) ≡ false
    passed = ground (arith, short.0)

pub covered-++ :
    (xs ys : List Entry) (i : ℕ) → covered (xs ++ ys) i ≡ (covered xs i || covered ys i)
covered-++ [] ys i = refl
covered-++ (x ∷ xs) ys i = ground (arith, covered-++ xs ys i)

-- The pages of an entry without its first `size` bytes, whole pages of them.
pub covers-shrunk :
    (size i : ℕ) (e : Entry)
    → is_usable e ≡ true
    → e.base + e.len < 2 ^ 64
    → size ≤ e.len
    → size % page_size ≡ 0
    → covers (record e { base = u64 (e.base + size); len = e.len - size }) i
      ≡ (covers e i && leb ((e.base + size) / page_size) i)
covers-shrunk size i e usable small fits whole = rw (start, usable) (ground (arith, end))
  where
    start : u64 (e.base + size) ≡ e.base + size
    start = omega arith

    end :
        (e.base + size) / page_size + (e.len - size + 4095) / page_size
        ≡ e.base / page_size + (e.len + 4095) / page_size
    end = omega arith

pub AllSmall-at :
    (before : List Entry) (e : Entry) (behind : List Entry)
    → AllSmall (before ++ e ∷ behind)
    → e.base + e.len < 2 ^ 64
AllSmall-at [] e behind small = omega (arith, small.0)
AllSmall-at (d ∷ before) e behind small = AllSmall-at before e behind small.1
