-- ===== src/Snake/Next.antt =====
-- snake_cal_next of programs/snake/snake.c: where the head goes from a cell.
use mmd_os.Base.{
  ℕ, zero, suc, ◌+◌, ◌-◌, ◌*◌, ◌/◌, ◌%◌, ◌^◌, ◌≤◌, ◌<◌, ◌≡◌, refl, sym, ap, ap₂, lt→ltb, ◌∙◌, arith,
  false, if◌then◌else◌, leb, ◌==◌, u16, ok,
}
use mmd_os.Snake.{
  Direction, up, down, right, left, stop, positive, count_rows, step_to, snake_cal_next,
}

-- One round of the loop, with the fuel left a variable.
round_on :
    (fuel h i h' i' : ℕ)
    → 0 < h
    → h < 2 ^ 15
    → u16 (h + 2 ^ 16 - 70) ≡ h'
    → u16 (i + 1) ≡ i'
    → count_rows (suc fuel) h i ≡ count_rows fuel h' i'
unfolding count_rows
round_on fuel h i h' i' low high e f =
    rw (lt→ltb 0 h low, lt→ltb h (2 ^ 15) high) (ap₂ (count_rows fuel) e f)

round_end : (fuel h i : ℕ) → positive h ≡ false → count_rows (suc fuel) h i ≡ ok (h, i)
unfolding count_rows
round_end fuel h i e = rw e refl

-- The loop that counts rows, from column `c` of row `r`, where columns count from 1.
count_rows_lem :
    (r c i fuel : ℕ)
    → 1 ≤ c
    → c ≤ 70
    → r < 400
    → i + r < 1000
    → r + 1 < fuel
    → count_rows fuel (r * 70 + c) i ≡ ok (u16 (c + 2 ^ 16 - 70), i + r + 1)
count_rows_lem r c i zero low high rows short enough = absurd (omega arith)
count_rows_lem r c i (suc zero) low high rows short enough = absurd (omega arith)
count_rows_lem zero c i (suc (suc fuel)) low high rows short enough =
    round_on (suc fuel) (0 * 70 + c) i (u16 (c + 2 ^ 16 - 70)) (i + 1) (omega arith) (omega arith)
      (omega arith) (omega arith)
    ∙ round_end fuel (u16 (c + 2 ^ 16 - 70)) (i + 1) (ground arith)
    ∙ ap (λ (n : ℕ). ok (u16 (c + 2 ^ 16 - 70), n)) (omega arith)
count_rows_lem (suc r) c i (suc (suc fuel)) low high rows short enough =
    round_on (suc fuel) (suc r * 70 + c) i (r * 70 + c) (i + 1) (omega arith) (omega arith)
      (omega arith) (omega arith)
    ∙ count_rows_lem r c (i + 1) (suc fuel) low high (omega arith) (omega arith) (omega arith)
    ∙ ap (λ (n : ℕ). ok (u16 (c + 2 ^ 16 - 70), n)) (omega arith)

-- The cell next to the one at `p`. On the left it is the one before, also across an edge; on the
-- right and above, the other end of the row and of the column; below, the cell 70 further on, also
-- if that is behind the board.
unfoldable pub next_to : Direction → ℕ → ℕ
next_to left p = p - 1
next_to right p = if p % 70 == 0 then p - 69 else p + 1
next_to up p = if leb p 70 then p + 2730 else p - 70
next_to down p = p + 70
next_to stop p = 0

step_to-next_to :
    (d : Direction) (r c : ℕ) → 1 ≤ c → c ≤ 70 → r < 40 → step_to d r c ≡ next_to d (r * 70 + c)
unfolding step_to next_to
step_to-next_to left r c low high rows = ground arith
step_to-next_to right r c low high rows = ground arith
step_to-next_to up r c low high rows = ground arith
step_to-next_to down r c low high rows = ground arith
step_to-next_to stop r c low high rows = refl

-- For a head on a cell from 1 to 2800, `snake_cal_next` ends and returns the cell next to it in the
-- direction.
pub snake_cal_next-next_to :
    (snake : ℕ → ℕ) (head : ℕ) (d : Direction)
    → 1 ≤ snake head
    → snake head ≤ 2800
    → snake_cal_next snake head d ≡ ok (next_to d (snake head))
unfolding snake_cal_next
snake_cal_next-next_to snake head d low high = rw counted (
    ap ok (
      ap₂ (step_to d) row column
      ∙ step_to-next_to d r c (omega arith) (omega arith) (omega arith)
      ∙ ap (next_to d) whole))
  where
    r : ℕ
    r = (snake head - 1) / 70

    c : ℕ
    c = (snake head - 1) % 70 + 1

    whole : r * 70 + c ≡ snake head
    whole = omega arith

    counted : count_rows 470 (snake head) 0 ≡ ok (u16 (c + 2 ^ 16 - 70), r + 1)
    counted =
        ap (λ h. count_rows 470 h 0) (sym whole)
        ∙ count_rows_lem r c 0 470 (omega arith) (omega arith) (omega arith) (omega arith)
            (omega arith)
        ∙ ap (λ (n : ℕ). ok (u16 (c + 2 ^ 16 - 70), n)) {y = r + 1} (omega arith)

    row : u16 (r + 1 + 2 ^ 16 - 1) ≡ r
    row = omega arith

    column : u16 (u16 (c + 2 ^ 16 - 70) + 70) ≡ c
    column = omega arith
