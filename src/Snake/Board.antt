-- ===== src/Snake/Board.antt =====
-- What snake_update of programs/snake/snake.c paints: the snake and the fruit on an empty board.
use mmd_os.Base.{
  Bool, false, ℕ, zero, suc, ◌+◌, ◌^◌, ◌<◌, ◌≡◌, refl, ap, ◌∙◌, arith, if◌then◌else◌, ltb, leb,
  ◌==◌, ◌&&◌, ◌||◌, List, [], ◌∷◌, ◌++◌,
}
use mmd_os.Snake.{
  max_size, empty_cell, head_cell, fill_array, paint_body, Game, store, body_cell, fruit_cell,
  paint, rounds_to,
}
use mmd_os.Snake.Entries.{entries, entries-last}

unfoldable pub contains : ℕ → List ℕ → Bool
contains k [] = false
contains k (x ∷ xs) = x == k || contains k xs

-- The value of place `k` of a board with a fruit and a snake: its head, and its cells with the head.
abbrev pub shown : ℕ → ℕ → List ℕ → ℕ → ℕ
shown fruit head cells k =
    if fruit == k
    then fruit_cell
    else if head == k
    then head_cell
    else if contains k cells
    then body_cell
    else empty_cell

contains-last : (k y : ℕ) (xs : List ℕ) → contains k (xs ++ y ∷ []) ≡ (contains k xs || y == k)
unfolding contains
contains-last k y [] = ground arith
contains-last k y (x ∷ xs) = ground (arith, contains-last k y xs)

fill_array_lem :
    (n i value : ℕ) (array : ℕ → ℕ) (k : ℕ)
    → fill_array n i value array k ≡ (if leb i k && ltb k (i + n) then value else array k)
unfolding fill_array
fill_array_lem zero i value array k = ground arith
fill_array_lem (suc n) i value array k =
    ground (arith, fill_array_lem n (i + 1) value (store i value array) k)

paint_body_lem :
    (n i : ℕ) (snake cells : ℕ → ℕ) (k : ℕ)
    → paint_body n i snake cells k ≡ (if contains k (entries n i snake) then body_cell else cells k)
unfolding paint_body contains entries
paint_body_lem zero i snake cells k = refl
paint_body_lem (suc n) i snake cells k =
    ground (arith, paint_body_lem n (i + 1) snake (store (snake i) body_cell cells) k)

pub paint-shown :
    (g : Game) (k : ℕ)
    → g.head < 2 ^ 15
    → k < 2800
    → (paint g).cells k ≡ shown g.fruit (g.snake g.head) (entries (suc g.head) 0 g.snake) k
paint-shown g k small inside =
    let all : rounds_to g.head ≡ g.head = ground arith in
    rw all (
      ground (
        arith,
        paint_body_lem g.head 0 g.snake (fill_array max_size 0 empty_cell g.cells) k,
        fill_array_lem max_size 0 empty_cell g.cells k,
        ap (contains k) (entries-last g.head 0 g.snake)
            ∙ contains-last k (g.snake (0 + g.head)) (entries g.head 0 g.snake)
            ∙ ap (λ i. contains k (entries g.head 0 g.snake) || g.snake i == k) {y = g.head}
                (omega arith),
      ))
