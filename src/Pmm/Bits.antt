-- ===== src/Pmm/Bits.antt =====
-- The laws of the bitmap of kernel/mm/bitmap.h: reading a bit after a write of a bit.
use mmd_os.Base.{
  ℕ, ◌+◌, ◌-◌, ◌/◌, ◌%◌, ◌^◌, ◌<◌, ◌≡◌, refl, arith, Bool, true, false, not, ◌&&◌, ◌||◌, ltb, ◌==◌,
  ◌!=◌, agree, agree→eq, all_below, all_below_lem, bit_and, bit_or, ℕ_discrete,
}
use mmd_os.Memory.{Memory, IsBytes}
use mmd_os.Pmm.{bitmap_set, bitmap_clear, bitmap_get}

abbrev bit_of : ℕ → ℕ → Bool
bit_of x k = bit_and x (2 ^ k) != 0

abbrev set_ok : ℕ → ℕ → ℕ → Bool
set_ok x k l =
    agree (bit_of (bit_or x (2 ^ k)) l) (k == l || bit_of x l) && ltb (bit_or x (2 ^ k)) 256

abbrev clear_ok : ℕ → ℕ → ℕ → Bool
clear_ok x k l =
    agree (bit_of (bit_and x (255 - 2 ^ k)) l) (not (k == l) && bit_of x l)
    && ltb (bit_and x (255 - 2 ^ k)) 256

abbrev over_bits : (ℕ → ℕ → ℕ → Bool) → ℕ → Bool
over_bits p x = all_below 8 (λ k. all_below 8 (λ l. p x k l))

set_table : all_below 256 (over_bits set_ok) ≡ true
unfolding all_below
set_table = refl

clear_table : all_below 256 (over_bits clear_ok) ≡ true
unfolding all_below
clear_table = refl

from_table :
    (p : ℕ → ℕ → ℕ → Bool)
    → all_below 256 (over_bits p) ≡ true
    → (x k l : ℕ) → x < 256
    → k < 8
    → l < 8
    → p x k l ≡ true
from_table p table x k l hx hk hl =
    all_below_lem 8 _ (all_below_lem 8 _ (all_below_lem 256 _ table x hx) k hk) l hl

and_true : (a b : Bool) → (a && b) ≡ true → (a ≡ true) × (b ≡ true)
and_true a b h = ground arith

module _ (x k l : ℕ) (hx : x < 256) (hk : k < 8) (hl : l < 8) where
  bit_of-or : bit_of (bit_or x (2 ^ k)) l ≡ (k == l || bit_of x l)
  bit_of-or = agree→eq _ _ (and_true _ _ (from_table set_ok set_table x k l hx hk hl)).0

  or-lt : ltb (bit_or x (2 ^ k)) 256 ≡ true
  or-lt = (and_true _ _ (from_table set_ok set_table x k l hx hk hl)).1

  bit_of-and : bit_of (bit_and x (255 - 2 ^ k)) l ≡ (not (k == l) && bit_of x l)
  bit_of-and = agree→eq _ _ (and_true _ _ (from_table clear_ok clear_table x k l hx hk hl)).0

  and-lt : ltb (bit_and x (255 - 2 ^ k)) 256 ≡ true
  and-lt = (and_true _ _ (from_table clear_ok clear_table x k l hx hk hl)).1

low : (i : ℕ) → i % 8 < 8
low i = omega arith

same_page : (i j : ℕ) → i / 8 ≡ j / 8 → (i % 8 == j % 8) ≡ (i == j)
same_page i j h = ground arith

other_byte : (b i j : ℕ) → (i / 8 ≡ j / 8 → ⊥) → (b + i / 8 == b + j / 8) ≡ false
other_byte b i j h = ground arith

module _ (m : Memory) (bitmap i j : ℕ) (bytes : IsBytes m) where
  -- Setting bit `i` sets that bit and no other.
  pub get-set : bitmap_get (bitmap_set m bitmap i) bitmap j ≡ (i == j || bitmap_get m bitmap j)
  unfolding bitmap_get bitmap_set
  get-set = elim (ℕ_discrete (i / 8) (j / 8)) [
    | yes e ↦ ground (
      arith,
      e,
      bit_of-or (m (bitmap + i / 8)) (i % 8) (j % 8) (bytes (bitmap + i / 8)) (low i) (low j),
      same_page i j e,
    )
    | no ne ↦ ground (arith, other_byte bitmap i j ne)
  ]

  -- Clearing bit `i` clears that bit and no other.
  pub get-clear :
      bitmap_get (bitmap_clear m bitmap i) bitmap j ≡ (not (i == j) && bitmap_get m bitmap j)
  unfolding bitmap_get bitmap_clear
  get-clear = elim (ℕ_discrete (i / 8) (j / 8)) [
    | yes e ↦ ground (
      arith,
      e,
      bit_of-and (m (bitmap + i / 8)) (i % 8) (j % 8) (bytes (bitmap + i / 8)) (low i) (low j),
      same_page i j e,
    )
    | no ne ↦ ground (arith, other_byte bitmap i j ne)
  ]

module _ (m : Memory) (bitmap i : ℕ) (bytes : IsBytes m) where
  pub set-IsBytes : IsBytes (bitmap_set m bitmap i)
  unfolding bitmap_set
  set-IsBytes q = ground (
    arith,
    bytes q,
    or-lt (m (bitmap + i / 8)) (i % 8) 0 (bytes (bitmap + i / 8)) (low i) (omega arith),
  )

  pub clear-IsBytes : IsBytes (bitmap_clear m bitmap i)
  unfolding bitmap_clear
  clear-IsBytes q = ground (
    arith,
    bytes q,
    and-lt (m (bitmap + i / 8)) (i % 8) 0 (bytes (bitmap + i / 8)) (low i) (omega arith),
  )
