-- ===== src/Life.antt =====
-- The game of life: programs/gameoflife/gameoflife.c.
mod Tests
pub mod Neighbors
pub mod Generation
use mmd_os.Base.{
  ℕ, zero, suc, ◌+◌, ◌-◌, ◌*◌, ◌/◌, ◌^◌, Bool, true, false, if◌then◌else◌, ltb, ◌==◌, ◌!=◌, ◌&&◌,
  ◌||◌, List, [], ◌∷◌, ◌++◌, Option, none, some, u8, u16,
}

abbrev pub width : ℕ
width = 40

abbrev pub height : ℕ
height = 70

-- `uint8_t* cells`: a cell is at its index.
abbrev pub Cells : Type 0
Cells = ℕ → ℕ

-- `GOL_CI(i, j)`
abbrev pub cell_index : ℕ → ℕ → ℕ
cell_index i j = u16 (i * height + j)

-- `cells[i] = 0` from `i` on for `n` cells.
pub clear_cells : ℕ → ℕ → Cells → Cells
clear_cells zero i cells = cells
clear_cells (suc n) i cells = clear_cells n (i + 1) (λ k. if i == k then 0 else cells k)

unfoldable pub gol_init_cells : Cells → Cells
gol_init_cells cells = clear_cells (width * height) 0 cells

-- The array `indeces`; what is below 0 wraps at 2^16.
abbrev pub neighbors : ℕ → ℕ → List ℕ
neighbors i j =
    let here = i * height + j + 2 ^ 16 in
    u16 (here - 1)
    ∷ u16 (here + 1)
    ∷ u16 (here - height)
    ∷ u16 (here + height)
    ∷ u16 (here - height - 1)
    ∷ u16 (here - height + 1)
    ∷ u16 (here + height - 1)
    ∷ u16 (here + height + 1)
    ∷ []

-- The loop that counts; the test of the code lets the index `width * height` through.
pub count_alive : Cells → List ℕ → ℕ → ℕ
count_alive cells [] count = count
count_alive cells (index ∷ indeces) count =
    if ltb (width * height) index
    then count_alive cells indeces count
    else count_alive cells indeces (if cells index != 0 then u8 (count + 1) else count)

unfoldable pub gol_get_alive_neighbors : Cells → ℕ → ℕ → ℕ
gol_get_alive_neighbors cells i j = count_alive cells (neighbors i j) 0

-- The arrays `toBeKilled` and `toBeRevived`, as far as they are filled.
abbrev pub Marks : Type 0
Marks = List ℕ × List ℕ

-- The body of the loops that look at every cell.
pub mark : Cells → ℕ → ℕ → Marks → Marks
mark cells i j (killed, revived) =
    let index = cell_index i j in
    let neighbor_count = gol_get_alive_neighbors cells (u8 i) (u8 j) in
    if cells index != 0
    then if ltb neighbor_count 2 || ltb 3 neighbor_count
      then (killed ++ index ∷ [], revived)
      else (killed, revived)
    else if neighbor_count == 3
    then (killed, revived ++ index ∷ [])
    else (killed, revived)

-- The columns from `j` on, and the rows from `i` on.
pub mark_row : ℕ → Cells → ℕ → ℕ → Marks → Marks
mark_row zero cells i j marks = marks
mark_row (suc n) cells i j marks = mark_row n cells i (j + 1) (mark cells i j marks)

pub mark_rows : ℕ → Cells → ℕ → Marks → Marks
mark_rows zero cells i marks = marks
mark_rows (suc n) cells i marks = mark_rows n cells (i + 1) (mark_row height cells i 0 marks)

-- `cells[index] = value` for each index of an array.
pub set_all : ℕ → List ℕ → Cells → Cells
set_all value [] cells = cells
set_all value (index ∷ indeces) cells =
    set_all value indeces (λ k. if index == k then value else cells k)

unfoldable pub gol_update : Cells → Cells
gol_update cells =
    let (killed, revived) = mark_rows width cells 0 ([], []) in
    set_all 1 revived (set_all 0 killed cells)

-- What stands at a place of the drawing; the cursor at 0, 0 is none.
abbrev pub drawn : Cells → ℕ → ℕ → ℕ → ℕ → ℕ
drawn cells row column i j =
    if i == 0 || i == width - 1 || j == 0 || j == height - 1
    then 42
    else if (row != 0 || column != 0) && row == i && column == j
    then 88
    else if cells (cell_index i j) != 0
    then 35
    else 32

-- The array `line` from column `j` on, with its newline.
pub draw_line : ℕ → Cells → ℕ → ℕ → ℕ → ℕ → List ℕ
draw_line zero cells row column i j = 10 ∷ []
draw_line (suc n) cells row column i j =
    drawn cells row column i j ∷ draw_line n cells row column i (j + 1)

-- The lines that are printed, from row `i` on; the cursor is in `row` and `column`.
pub draw_lines : ℕ → Cells → ℕ → ℕ → ℕ → List (List ℕ)
draw_lines zero cells row column i = []
draw_lines (suc n) cells row column i =
    draw_line height cells row column i 0 ∷ draw_lines n cells row column (i + 1)

unfoldable pub gol_draw : Cells → ℕ → ℕ → List (List ℕ)
gol_draw cells row column = draw_lines width cells row column 0

-- The local variables of `gol_game_loop`: `row` and `column` are the two bytes of the cursor.
pub record Game : Type 0 where
  pub cells : Cells
  pub row : ℕ
  pub column : ℕ
  pub state : ℕ

abbrev pub flip : ℕ → Cells → Cells
flip index cells k = if index == k then (if cells index == 0 then 1 else 0) else cells k

-- The key `f` starts a game, or ends it and clears the board.
abbrev pub start_or_stop : Game → Game
start_or_stop g =
    if g.state == 0
    then record g { state = 1; row = 0; column = 0 }
    else if g.state == 1
    then record g {
      state = 0;
      row = width / 2;
      column = height / 2;
      cells = gol_init_cells g.cells;
    }
    else g

-- `gol_key_handler`, with what `keyboard_getch` returned. The tests for less than 0 never hold.
unfoldable pub gol_key_handler : ℕ → Game → Game
gol_key_handler key g =
    if key == 119
    then record g { row = if ltb width (u8 (g.row + 255)) then width else u8 (g.row + 255) }
    else if key == 115
    then record g { row = u8 (g.row + 1) }
    else if key == 97
    then record g { column = u8 (g.column + 255) }
    else if key == 100
    then record g { column = if ltb height (u8 (g.column + 1)) then height else u8 (g.column + 1) }
    else if key == 101
    then record g { cells = flip (g.row * height + g.column) g.cells }
    else if key == 102
    then start_or_stop g
    else if key == 113
    then record g { state = 2 }
    else g

-- A round of `gol_game_loop` that is not waiting: what the game is after it, and what it drew, or
-- that the game was left.
unfoldable pub gol_round : ℕ → Game → Option (Game × List (List ℕ))
gol_round key g =
    let g1 = gol_key_handler key g in
    let g2 = if g1.state == 1 then record g1 { cells = gol_update g1.cells } else g1 in
    if g1.state == 2 then none else some (g2, gol_draw g2.cells g2.row g2.column)
