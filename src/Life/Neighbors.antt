-- ===== src/Life/Neighbors.antt =====
-- gol_get_alive_neighbors of programs/gameoflife/gameoflife.c inside the board: the eight cells
-- around.
use mmd_os.Base.{
  ℕ, ◌+◌, ◌-◌, ◌*◌, ◌≤◌, ◌<◌, ◌≡◌, refl, ap, ◌∙◌, arith, if◌then◌else◌, ◌!=◌, le→ltb, lt→ltb, ◌/◌,
  ◌%◌, Bool-cases, inl, inr, List, [], ◌∷◌,
}
use mmd_os.Life.{Cells, count_alive, gol_get_alive_neighbors, gol_update}
use mmd_os.Life.Generation.{life_rule, gol_update-life_rule}

-- 1 for a cell that is alive.
unfoldable pub alive : Cells → ℕ → ℕ → ℕ
alive cells i j = if cells (i * 70 + j) != 0 then 1 else 0

-- How many of the eight cells around are alive.
unfoldable pub around : Cells → ℕ → ℕ → ℕ
around cells i j =
    alive cells (i - 1) (j - 1)
    + alive cells (i - 1) j
    + alive cells (i - 1) (j + 1)
    + (alive cells i (j - 1) + alive cells i (j + 1))
    + (alive cells (i + 1) (j - 1) + alive cells (i + 1) j + alive cells (i + 1) (j + 1))

alive-le : (cells : Cells) (i j : ℕ) → alive cells i j ≤ 1
unfolding alive
alive-le cells i j = ground arith

-- One index of the array.
count_alive_step :
    (cells : Cells) (i j index count : ℕ) (rest : List ℕ)
    → index ≡ i * 70 + j
    → index ≤ 2800
    → count < 255
    → count_alive cells (index ∷ rest) count ≡ count_alive cells rest (count + alive cells i j)
unfolding count_alive alive
count_alive_step cells i j index count rest e h l =
    rw (le→ltb 2800 index h) (elim (Bool-cases (cells (i * 70 + j) != 0)) [
      | inl t ↦ rw e (rw t (ap (count_alive cells rest) (omega arith)))
      | inr f ↦ rw e (rw f (ap (count_alive cells rest) (omega arith)))
    ])

count_alive_none : (cells : Cells) (count : ℕ) → count_alive cells [] count ≡ count
unfolding count_alive
count_alive_none cells count = refl

-- Inside the board, no index wraps and no count is cut.
gol_get_alive_neighbors-around :
    (cells : Cells) (i j : ℕ)
    → 1 ≤ i
    → i < 39
    → 1 ≤ j
    → j < 69
    → gol_get_alive_neighbors cells i j ≡ around cells i j
unfolding gol_get_alive_neighbors around
gol_get_alive_neighbors-around cells i j low high left right =
    count_alive_step cells i (j - 1) _ 0 _ (omega arith) (omega arith) (omega arith)
    ∙ count_alive_step cells i (j + 1) _ _ _ (omega arith) (omega arith)
        (omega (arith, few i (j - 1)))
    ∙ count_alive_step cells (i - 1) j _ _ _ (omega arith) (omega arith)
        (omega (arith, few i (j - 1), few i (j + 1)))
    ∙ count_alive_step cells (i + 1) j _ _ _ (omega arith) (omega arith)
        (omega (arith, few i (j - 1), few i (j + 1), few (i - 1) j))
    ∙ count_alive_step cells (i - 1) (j - 1) _ _ _ (omega arith) (omega arith)
        (omega (arith, few i (j - 1), few i (j + 1), few (i - 1) j, few (i + 1) j))
    ∙ count_alive_step cells (i - 1) (j + 1) _ _ _ (omega arith) (omega arith) (
        omega
          (arith, few i (j - 1), few i (j + 1), few (i - 1) j, few (i + 1) j, few (i - 1) (j - 1)))
    ∙ count_alive_step cells (i + 1) (j - 1) _ _ _ (omega arith) (omega arith) (
        omega (
          arith,
          few i (j - 1),
          few i (j + 1),
          few (i - 1) j,
          few (i + 1) j,
          few (i - 1) (j - 1),
          few (i - 1) (j + 1),
        ))
    ∙ count_alive_step cells (i + 1) (j + 1) _ _ _ (omega arith) (omega arith) (
        omega (
          arith,
          few i (j - 1),
          few i (j + 1),
          few (i - 1) j,
          few (i + 1) j,
          few (i - 1) (j - 1),
          few (i - 1) (j + 1),
          few (i + 1) (j - 1),
        ))
    ∙ count_alive_none cells _
    ∙ omega arith
  where
    few : (i j : ℕ) → alive cells i j ≤ 1
    few = alive-le cells

-- For a cell inside the board, that is in neither the first nor the last row or column, `gol_update`
-- gives what the rule of the game says for its value and the number of the eight cells around it that
-- are alive, all before the update.
pub gol_update-around :
    (cells : Cells) (i j : ℕ)
    → 1 ≤ i
    → i < 39
    → 1 ≤ j
    → j < 69
    → gol_update cells (i * 70 + j) ≡ life_rule (cells (i * 70 + j)) (around cells i j)
gol_update-around cells i j low high left right =
    gol_update-life_rule cells (i * 70 + j)
    ∙ rw (lt→ltb (i * 70 + j) 2800 (omega arith)) (
        rw (quotient, remainder)
          (ap (life_rule (cells (i * 70 + j)))
            (gol_get_alive_neighbors-around cells i j low high left right)))
  where
    quotient : (i * 70 + j) / 70 ≡ i
    quotient = omega arith

    remainder : (i * 70 + j) % 70 ≡ j
    remainder = omega arith
