-- ===== src/Life/Tests.antt =====
-- Tests of the game of life.
use mmd_os.Base.{◌+◌, ◌*◌, ◌≡◌, refl, arith, if◌then◌else◌, ◌==◌, ◌||◌}
use mmd_os.Life.{Cells, gol_update, gol_key_handler}
use mmd_os.Life.Generation.{life_rule}
use mmd_os.Life.Neighbors.{around, alive, gol_update-around}

-- Three cells in a row.
abbrev blinker : Cells
blinker = λ k. if k == 720 || k == 721 || k == 722 then 1 else 0

gol_update-around_example :
    gol_update blinker (9 * 70 + 21) ≡ life_rule (blinker (9 * 70 + 21)) (around blinker 9 21)
gol_update-around_example =
    gol_update-around blinker 9 21 (omega arith) (omega arith) (omega arith) (omega arith)

-- The cell above its middle is born.
born : life_rule (blinker (9 * 70 + 21)) (around blinker 9 21) ≡ 1
unfolding life_rule around alive
born = refl

-- The cursor leaves the board on its left.
cursor_leaves :
    (gol_key_handler 97 (record { cells = blinker; row = 20; column = 0; state = 0 })).column ≡ 255
unfolding gol_key_handler
cursor_leaves = refl
