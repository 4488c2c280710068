-- ===== src/Snake/Tests.antt =====
-- Tests of the game snake.
use mmd_os.Base.{◌≡◌, arith, if◌then◌else◌, ◌==◌, ok}
use mmd_os.Snake.{Game, up, down, snake_cal_next}
use mmd_os.Snake.Next.{next_to, snake_cal_next-next_to}

-- A snake of three cells that goes up.
abbrev three : Game
three = record {
  cells = λ k. if k == 1250 then 4 else 0;
  snake = λ i. if i == 0 then 1460 else if i == 1 then 1390 else 1320;
  head = 2;
  fruit = 1250;
  direction = up;
  state = 1;
  seed = 0;
}

-- Below the last row the next cell is behind the board's 2800.
leaves_board : snake_cal_next (λ i. 2740) 0 down ≡ ok 2810
unfolding next_to
leaves_board = snake_cal_next-next_to (λ i. 2740) 0 down (omega arith) (omega arith)
