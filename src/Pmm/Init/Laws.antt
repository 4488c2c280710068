-- ===== src/Pmm/Init/Laws.antt =====
-- After `pmm_init` of kernel/mm/pmm.c the free pages are those of the usable memory that is left.
use mmd_os.Base.{
  ℕ, zero, suc, ◌+◌, ◌-◌, ◌*◌, ◌/◌, ◌^◌, ◌<◌, ◌≡◌, refl, arith, Bool, false, not, ◌&&◌, ◌||◌,
  if◌then◌else◌, Bool-cases, inl, inr, u64, dec_lt, lt→ltb, le→ltb, List, [], ◌∷◌,
}
use mmd_os.Memory.{Memory, IsBytes}
use mmd_os.Pmm.{page_size, bitmap_get, bitmap_clear}
use mmd_os.Pmm.Bits.{get-clear, clear-IsBytes}
use mmd_os.Pmm.Scan.{in_run}
use mmd_os.Pmm.Init.{Entry, is_usable, clear_entry, clear_entries}

-- The pages that an entry touches, from the page of its first byte on.
abbrev pub pages_of : Entry → ℕ
pages_of e = (e.len + 4095) / page_size

abbrev pub covers : Entry → ℕ → Bool
covers e i = is_usable e && in_run (e.base / page_size) (pages_of e) i

abbrev pub covered : List Entry → ℕ → Bool
covered [] i = false
covered (e ∷ es) i = covers e i || covered es i

-- No sum of the loops wraps.
abbrev pub IsSmall : Entry → Type 0
IsSmall e = e.base + e.len + 2 * page_size < 2 ^ 64

clear_entry-get :
    (rounds bitmap : ℕ) (e : Entry) (j : ℕ) (m : Memory) (i : ℕ)
    → IsBytes m
    → IsSmall e
    → j < e.len + page_size
    → e.len < j + rounds * page_size
    → bitmap_get (clear_entry rounds bitmap e j m) bitmap i ≡ (
        not (in_run ((e.base + j) / page_size) ((e.len - j + 4095) / page_size) i)
        && bitmap_get m bitmap i)
unfolding clear_entry
clear_entry-get zero bitmap e j m i bytes small near fuel = ground arith
clear_entry-get (suc rounds) bitmap e j m i bytes small near fuel =
    rw (next, here)
      (elim (dec_lt j e.len) [
        | yes more ↦ rw (lt→ltb _ _ more) (
            ground (
              arith,
              step more,
              get-clear m bitmap ((e.base + j) / page_size) i bytes,
              clear_entry-get rounds bitmap e (j + page_size)
                  (bitmap_clear m bitmap ((e.base + j) / page_size)) i
                  (clear-IsBytes m bitmap ((e.base + j) / page_size) bytes) small (omega arith)
                  (omega arith),
            ))
        | no done ↦ rw (le→ltb j e.len (omega arith)) (ground (arith, none_left done))
      ])
  where
    next : u64 (j + page_size) ≡ j + page_size
    next = omega arith

    here : u64 (e.base + j) ≡ e.base + j
    here = omega arith

    none_left : ¬ (j < e.len) → (e.len - j + 4095) / page_size ≡ 0
    none_left h = omega arith

    step :
        j < e.len
        → ((e.base + (j + page_size)) / page_size ≡ (e.base + j) / page_size + 1)
          × ((e.len - j + 4095) / page_size ≡ (e.len - (j + page_size) + 4095) / page_size + 1)
    step h = omega arith

clear_entry-IsBytes :
    (rounds bitmap : ℕ) (e : Entry) (j : ℕ) (m : Memory)
    → IsBytes m
    → IsBytes (clear_entry rounds bitmap e j m)
unfolding clear_entry
clear_entry-IsBytes zero bitmap e j m bytes = bytes
clear_entry-IsBytes (suc rounds) bitmap e j m bytes = elim (dec_lt j e.len) [
  | yes more ↦ rw (lt→ltb _ _ more) (
      clear_entry-IsBytes rounds bitmap e (u64 (j + page_size)) _
        (clear-IsBytes m bitmap (u64 (e.base + j) / page_size) bytes))
  | no done ↦ rw (le→ltb j e.len (omega arith)) bytes
]

-- Every entry is small.
abbrev pub AllSmall : List Entry → Type 0
AllSmall [] = Unit {0}
AllSmall (e ∷ es) = IsSmall e × AllSmall es

abbrev cleared : ℕ → Entry → Memory → Memory
cleared bitmap e m = if is_usable e then clear_entry (e.len / page_size + 1) bitmap e 0 m else m

cleared-IsBytes : (bitmap : ℕ) (e : Entry) (m : Memory) → IsBytes m → IsBytes (cleared bitmap e m)
cleared-IsBytes bitmap e m bytes = elim (Bool-cases (is_usable e)) [
  | inl u ↦ rw u (clear_entry-IsBytes (e.len / page_size + 1) bitmap e 0 m bytes)
  | inr u ↦ rw u bytes
]

cleared-get :
    (bitmap : ℕ) (e : Entry) (m : Memory) (i : ℕ)
    → IsBytes m
    → IsSmall e
    → bitmap_get (cleared bitmap e m) bitmap i ≡ (not (covers e i) && bitmap_get m bitmap i)
cleared-get bitmap e m i bytes small = elim (Bool-cases (is_usable e)) [
  | inl u ↦ rw u (
      ground (
        arith,
        start,
        clear_entry-get (e.len / page_size + 1) bitmap e 0 m i bytes small (omega arith)
            (omega arith),
      ))
  | inr u ↦ rw u refl
]
  where
    start : e.base + 0 ≡ e.base
    start = omega arith

pub clear_entries-get :
    (bitmap : ℕ) (es : List Entry) (m : Memory) (i : ℕ)
    → IsBytes m
    → AllSmall es
    → IsBytes (clear_entries bitmap es m)
      × (bitmap_get (clear_entries bitmap es m) bitmap i
          ≡ (not (covered es i) && bitmap_get m bitmap i))
unfolding clear_entries
clear_entries-get bitmap [] m i bytes small = (bytes, refl)
clear_entries-get bitmap (e ∷ es) m i bytes small =
    let rest =
      clear_entries-get bitmap es (cleared bitmap e m) i (cleared-IsBytes bitmap e m bytes)
        small.1 in
    (rest.0, ground (arith, rest.1, cleared-get bitmap e m i bytes small.0))
