-- ===== src/Snake.antt =====
-- The game snake: programs/snake/snake.c. An `int16_t` is its bit pattern, a number below 2^16. The
-- arrays have 2800 places each; an index outside is undefined behaviour in the code, and the model,
-- which has a function for each array, says nothing of it.
mod Tests
pub mod Next
pub mod Entries
pub mod Board
pub mod Body
use mmd_os.Base.{
  ℕ, zero, suc, ◌+◌, ◌-◌, ◌*◌, ◌/◌, ◌%◌, ◌^◌, Bool, true, false, not, if◌then◌else◌, ltb, leb, ◌==◌,
  ◌!=◌, ◌&&◌, ◌||◌, List, [], ◌∷◌, Option, none, some, u16, Outcome, ok, out_of_fuel, ◌>>=◌,
}

abbrev pub snake_width : ℕ
snake_width = 70

abbrev pub snake_height : ℕ
snake_height = 40

abbrev pub max_size : ℕ
max_size = snake_width * snake_height

-- `enum cell_type`, as the bytes of the board hold it.
abbrev pub empty_cell : ℕ
empty_cell = 0

abbrev pub block_cell : ℕ
block_cell = 1

abbrev pub body_cell : ℕ
body_cell = 2

abbrev pub head_cell : ℕ
head_cell = 3

abbrev pub fruit_cell : ℕ
fruit_cell = 4

pub data Direction : Type 0 where
  up : Direction
  down : Direction
  right : Direction
  left : Direction
  stop : Direction

-- The local variables of `snake_game_loop`, and the seed. `snake` holds the indices of the cells that
-- the snake is on, its head at `head`.
pub record Game : Type 0 where
  pub cells : ℕ → ℕ
  pub snake : ℕ → ℕ
  pub head : ℕ
  pub fruit : ℕ
  pub direction : Direction
  pub state : ℕ
  pub seed : ℕ

abbrev pub store : ℕ → ℕ → (ℕ → ℕ) → ℕ → ℕ
store index value array k = if index == k then value else array k

-- The seed wraps as an `int` before the mask, and is cut to 16 bits.
abbrev pub next_seed : ℕ → ℕ
next_seed seed = u16 ((seed * 1103515245 + 12345) % 2 ^ 32 % 2 ^ 31)

-- `snake_rand(min, max)` with the new seed.
abbrev pub snake_rand : ℕ → ℕ → ℕ → ℕ
snake_rand min max seed = min + seed % (max - min + 1)

-- `snake_new_fruit_pos`: the position, and the seed after it.
unfoldable pub snake_new_fruit_pos : ℕ → ℕ × ℕ
snake_new_fruit_pos seed =
    let seed1 = next_seed seed in
    let seed2 = next_seed seed1 in
    (
      u16 (
          snake_rand 1 (snake_height - 1) seed1 * snake_width
          + snake_rand 1 (snake_width - 1) seed2),
      seed2,
    )

-- `array[i] = value` from `i` on for `n` places.
pub fill_array : ℕ → ℕ → ℕ → (ℕ → ℕ) → ℕ → ℕ
fill_array zero i value array = array
fill_array (suc n) i value array = fill_array n (i + 1) value (store i value array)

abbrev pub start_cell : ℕ
start_cell = max_size / 2 - 10

unfoldable pub snake_init_cells : (ℕ → ℕ) → ℕ → ℕ
snake_init_cells cells =
    store 1010 fruit_cell (store start_cell head_cell (fill_array max_size 0 empty_cell cells))

unfoldable pub snake_init_snake : (ℕ → ℕ) → ℕ → ℕ
snake_init_snake snake = store 0 start_cell (fill_array max_size 0 0 snake)

unfoldable pub snake_restart : Game → Game
snake_restart g = record g {
  state = 0;
  snake = snake_init_snake g.snake;
  cells = snake_init_cells g.cells;
  head = 0;
  direction = stop;
  fruit = 1010;
}

-- `x > 0`, and `x > n - 1` for a positive `n`, of a signed `x`.
abbrev pub positive : ℕ → Bool
positive x = ltb 0 x && ltb x (2 ^ 15)

abbrev pub at_least : ℕ → ℕ → Bool
at_least n x = leb n x && ltb x (2 ^ 15)

-- `while (h > 0) { h -= 70; i++; }`, on fuel: `h` and `i` after it.
pub count_rows : ℕ → ℕ → ℕ → Outcome (ℕ × ℕ)
count_rows zero h i = out_of_fuel
count_rows (suc fuel) h i =
    let rest = count_rows fuel (u16 (h + 2 ^ 16 - 70)) (u16 (i + 1)) in
    if positive h then rest else ok (h, i)

-- The `switch` of `snake_cal_next`.
pub step_to : Direction → ℕ → ℕ → ℕ
step_to left i j = u16 (i * snake_width + (if positive j then j else snake_width) + 2 ^ 16 - 1)
step_to right i j = u16 (i * snake_width + (if at_least snake_width j then 0 else j) + 1)
step_to up i j = u16 ((if positive i then i + 2 ^ 16 - 1 else snake_height - 1) * snake_width + j)
step_to down i j = u16 ((if at_least snake_height i then 1 else i + 1) * snake_width + j)
step_to stop i j = 0

-- An `int16_t` above 0 is below 2^15, so the loop has at most 469 rounds.
unfoldable pub snake_cal_next : (ℕ → ℕ) → ℕ → Direction → Outcome ℕ
snake_cal_next snake head direction = count_rows 470 (snake head) 0 >>= λ (h, i).
    ok (step_to direction (u16 (i + 2 ^ 16 - 1)) (u16 (h + snake_width)))

-- The rounds of a loop from 0 while `i < *head`: the comparison is of signed numbers.
abbrev pub rounds_to : ℕ → ℕ
rounds_to head = if ltb head (2 ^ 15) then head else 0

-- `while (h < *head) { snake[h] = snake[h+1]; h += 1; }`, by the rounds left.
pub shift_cells : ℕ → ℕ → (ℕ → ℕ) → ℕ → ℕ
shift_cells zero h snake = snake
shift_cells (suc n) h snake = shift_cells n (h + 1) (store h (snake (h + 1)) snake)

-- `cells[snake[i]] = Snake_Body` from `i` on for `n` places.
pub paint_body : ℕ → ℕ → (ℕ → ℕ) → (ℕ → ℕ) → ℕ → ℕ
paint_body zero i snake cells = cells
paint_body (suc n) i snake cells = paint_body n (i + 1) snake (store (snake i) body_cell cells)

abbrev pub paint : Game → Game
paint g = record g {
  cells = store g.fruit fruit_cell (
      store (g.snake g.head) head_cell
        (paint_body (rounds_to g.head) 0 g.snake (fill_array max_size 0 empty_cell g.cells)));
}

-- The fruit is eaten: the snake grows by the cell of the fruit.
abbrev pub eat : ℕ → Game → Game
eat next_cell g =
    let (fruit, seed) = snake_new_fruit_pos g.seed in
    record g {
      fruit = fruit;
      seed = seed;
      head = u16 (g.head + 1);
      snake = store (u16 (g.head + 1)) next_cell g.snake;
    }

abbrev pub walk : ℕ → Game → Game
walk next_cell g = record g {
  snake = store g.head next_cell (shift_cells (rounds_to g.head) 0 g.snake);
}

-- What `snake_update` does before it paints the board.
abbrev pub moved : ℕ → Game → Game
moved next_cell g =
    if g.cells next_cell == body_cell || g.cells next_cell == block_cell
    then snake_restart g
    else if g.cells next_cell == fruit_cell
    then eat next_cell g
    else walk next_cell g

unfoldable pub snake_update : Game → Outcome Game
snake_update g =
    snake_cal_next g.snake g.head g.direction >>= λ next_cell. ok (paint (moved next_cell g))

-- A turn that is not back on itself.
pub turn : ℕ → Direction → Direction
turn key direction =
    if key == 119
    then elim direction [ down ↦ down | _ ↦ up ]
    else if key == 115
    then elim direction [ up ↦ up | _ ↦ down ]
    else if key == 97
    then elim direction [ right ↦ right | _ ↦ left ]
    else if key == 100
    then elim direction [ left ↦ left | _ ↦ right ]
    else direction

-- `snake_key_handler`, with what `keyboard_getch` returned.
unfoldable pub snake_key_handler : ℕ → Game → Game
snake_key_handler key g =
    if key == 102
    then if g.state == 0
      then record g { state = 1; direction = up }
      else if g.state == 1
      then snake_restart g
      else g
    else if key == 113
    then record g { state = 2 }
    else record g { direction = turn key g.direction }

-- The character for a cell inside the border; other values leave what the array held.
abbrev pub drawn : ℕ → ℕ → ℕ
drawn before cell =
    if cell == empty_cell
    then 32
    else if cell == block_cell
    then 35
    else if cell == head_cell
    then 64
    else if cell == body_cell
    then 42
    else if cell == fruit_cell
    then 36
    else before

-- The array `line` after row `i` was drawn from column `j` on.
pub draw_row : ℕ → (ℕ → ℕ) → ℕ → ℕ → (ℕ → ℕ) → ℕ → ℕ
draw_row zero cells i j line = line
draw_row (suc n) cells i j line = draw_row n cells i (j + 1) (
    store j
      (if i == 0 || i == snake_height - 1 || j == 0 || j == snake_width - 1
        then 42
        else drawn (line j) (cells (u16 (i * snake_width + j))))
      line)

-- The lines that are printed, from row `i` on.
pub draw_rows : ℕ → (ℕ → ℕ) → ℕ → (ℕ → ℕ) → List (ℕ → ℕ)
draw_rows zero cells i line = []
draw_rows (suc n) cells i line =
    let line' = draw_row snake_width cells i 0 line in line' ∷ draw_rows n cells (i + 1) line'

unfoldable pub snake_draw : (ℕ → ℕ) → List (ℕ → ℕ)
snake_draw cells = draw_rows snake_height cells 0 (λ k. if k == snake_width then 10 else 0)

-- A round of `snake_game_loop` that is not waiting: the game after it and what it drew, or that the
-- game was left.
unfoldable pub snake_round : ℕ → Game → Outcome (Option (Game × List (ℕ → ℕ)))
snake_round key g =
    let g1 = snake_key_handler key g in
    if g1.state == 2
    then ok none
    else if g1.state == 1
    then (snake_update g1 >>= λ g2. ok (some (g2, snake_draw g2.cells)))
    else ok (some (g1, snake_draw g1.cells))
