-- ===== src/Snake/Body.antt =====
-- snake_update of programs/snake/snake.c: the snake as the list of its cells, its head last.
use mmd_os.Base.{ℕ, suc, ◌+◌, ◌≤◌, ◌<◌, if◌then◌else◌, ◌==◌, ◌||◌, List, [], ◌∷◌, ◌++◌}
use mmd_os.Snake.{Game, start_cell, body_cell, block_cell, fruit_cell}
use mmd_os.Snake.Entries.{entries}

-- The cells of the snake, its head last.
unfoldable pub cells_of : Game → List ℕ
cells_of g = entries (suc g.head) 0 g.snake

unfoldable pub without_first : List ℕ → List ℕ
without_first [] = []
without_first (x ∷ xs) = xs

-- What becomes of the snake `s` when it goes to a cell with the value `c`: it starts again, grows, or
-- moves on.
unfoldable pub snake_at : ℕ → ℕ → List ℕ → List ℕ
snake_at c next s =
    if c == body_cell || c == block_cell
    then start_cell ∷ []
    else if c == fruit_cell
    then s ++ next ∷ []
    else without_first s ++ next ∷ []

-- The snake leaves room for one cell more in its array, its cells and the fruit are places of the
-- board, and the head is on a cell from 1 on.
pub record IsOnBoard (g : Game) : Type 0 where
  pub room : g.head + 1 < 2800
  pub body : (i : ℕ) → i ≤ g.head → g.snake i < 2800
  pub fruit_there : g.fruit < 2800
  pub head_there : 1 ≤ g.snake g.head

abbrev Stays : Game → Type 0
Stays g = (g.head < 2800) × ((i : ℕ) → i ≤ g.head → g.snake i < 2800) × (g.fruit < 2800)
