-- ===== src/Life/Generation.antt =====
-- gol_update of programs/gameoflife/gameoflife.c: every cell is decided by the cells before.
use mmd_os.Base.{
  ℕ, zero, suc, ◌+◌, ◌*◌, ◌/◌, ◌%◌, ◌≤◌, ◌<◌, ◌≡◌, refl, arith, Bool, false, if◌then◌else◌, ltb,
  leb, ◌==◌, ◌!=◌, ◌&&◌, ◌||◌, Bool-cases, inl, inr, ℕ_discrete, List, [], ◌∷◌, ◌++◌, u8,
}
use mmd_os.Life.{
  Cells, cell_index, gol_get_alive_neighbors, Marks, mark, mark_row, mark_rows, set_all, gol_update,
}

-- Whether an index is in an array.
has : ℕ → List ℕ → Bool
has k [] = false
has k (x ∷ xs) = x == k || has k xs

has-append : (k : ℕ) (xs : List ℕ) (x : ℕ) → has k (xs ++ x ∷ []) ≡ (has k xs || x == k)
unfolding has
has-append k [] x = ground arith
has-append k (y ∷ xs) x = ground (arith, has-append k xs x)

set_all-has :
    (value : ℕ) (xs : List ℕ) (cells : Cells) (k : ℕ)
    → set_all value xs cells k ≡ (if has k xs then value else cells k)
unfolding has set_all
set_all-has value [] cells k = refl
set_all-has value (x ∷ xs) cells k =
    ground (arith, set_all-has value xs (λ q. if x == q then value else cells q) k)

-- The neighbours that are counted for the cell at `k`.
abbrev pub counted : Cells → ℕ → ℕ
counted cells k = gol_get_alive_neighbors cells (k / 70) (k % 70)

dies : Cells → ℕ → Bool
dies cells k = cells k != 0 && (ltb (counted cells k) 2 || ltb 3 (counted cells k))

revives : Cells → ℕ → Bool
revives cells k = cells k == 0 && counted cells k == 3

-- The arrays hold an index as before, or because it is in a range and its cell changes.
record IsMarked (cells : Cells) (k low n : ℕ) (before after : Marks) : Type 0 where
  killed : has k after.0 ≡ (has k before.0 || (leb low k && ltb k (low + n) && dies cells k))
  revived : has k after.1 ≡ (has k before.1 || (leb low k && ltb k (low + n) && revives cells k))

add_if : (ℕ → Bool) → ℕ → List ℕ → List ℕ
add_if test p xs = if test p then xs ++ p ∷ [] else xs

add_if-has :
    (test : ℕ → Bool) (k p : ℕ) (xs : List ℕ)
    → has k (add_if test p xs) ≡ (has k xs || (leb p k && ltb k (p + 1) && test k))
unfolding add_if
add_if-has test k p xs = elim (ℕ_discrete p k) [
  | yes e ↦ rw e (elim (Bool-cases (test k)) [
    | inl t ↦ rw t (ground (arith, has-append k xs k))
    | inr f ↦ rw f (ground arith)
  ])
  | no l ↦ elim (Bool-cases (test p)) [
    | inl t ↦ rw t (ground (arith, has-append k xs p, l))
    | inr f ↦ rw f (ground (arith, l))
  ]
]

-- The body of the loops, by what becomes of the cell.
mark-add_if :
    (cells : Cells) (i j : ℕ) (marks : Marks)
    → i < 40
    → j < 70
    → mark cells i j marks
      ≡ (add_if (dies cells) (i * 70 + j) marks.0, add_if (revives cells) (i * 70 + j) marks.1)
unfolding mark dies revives add_if
mark-add_if cells i j marks h l =
    rw index (rw column (rw row (rw (quotient, remainder) (ground arith))))
  where
    index : cell_index i j ≡ i * 70 + j
    index = omega (arith, h, l)

    row : u8 i ≡ i
    row = omega (arith, h)

    column : u8 j ≡ j
    column = omega (arith, l)

    quotient : (i * 70 + j) / 70 ≡ i
    quotient = omega (arith, l)

    remainder : (i * 70 + j) % 70 ≡ j
    remainder = omega (arith, l)

mark-IsMarked :
    (cells : Cells) (i j k : ℕ) (marks : Marks)
    → i < 40
    → j < 70
    → IsMarked cells k (i * 70 + j) 1 marks (mark cells i j marks)
mark-IsMarked cells i j k marks h l = rw (mark-add_if cells i j marks h l) (record {
  killed = add_if-has (dies cells) k (i * 70 + j) marks.0;
  revived = add_if-has (revives cells) k (i * 70 + j) marks.1;
})

mark_row-IsMarked :
    (n : ℕ) (cells : Cells) (i j k : ℕ) (marks : Marks)
    → i < 40
    → j + n ≤ 70
    → IsMarked cells k (i * 70 + j) n marks (mark_row n cells i j marks)
unfolding mark_row
mark_row-IsMarked zero cells i j k marks h l = record {
  killed = ground arith;
  revived = ground arith;
}
mark_row-IsMarked (suc n) cells i j k marks h l =
    let first = mark-IsMarked cells i j k marks h (omega arith) in
    let rest = mark_row-IsMarked n cells i (j + 1) k (mark cells i j marks) h (omega arith) in
    record {
      killed = ground (arith, first.killed, rest.killed);
      revived = ground (arith, first.revived, rest.revived);
    }

mark_rows-IsMarked :
    (n : ℕ) (cells : Cells) (i k : ℕ) (marks : Marks)
    → i + n ≤ 40
    → IsMarked cells k (i * 70) (n * 70) marks (mark_rows n cells i marks)
unfolding mark_rows
mark_rows-IsMarked zero cells i k marks h = record { killed = ground arith; revived = ground arith }
mark_rows-IsMarked (suc n) cells i k marks h =
    let first = mark_row-IsMarked 70 cells i 0 k marks (omega arith) (omega arith) in
    let rest = mark_rows-IsMarked n cells (i + 1) k (mark_row 70 cells i 0 marks) (omega arith) in
    record {
      killed = ground (arith, first.killed, rest.killed);
      revived = ground (arith, first.revived, rest.revived);
    }

-- What becomes of a cell with value `c` and `count` neighbours alive.
unfoldable pub life_rule : ℕ → ℕ → ℕ
life_rule c count =
    if c != 0 then (if ltb count 2 || ltb 3 count then 0 else c) else (if count == 3 then 1 else 0)

-- `gol_update` gives each of the 2800 cells what the rule says for it and its count before the
-- update, and changes nothing behind them.
pub gol_update-life_rule :
    (cells : Cells) (k : ℕ)
    → gol_update cells k ≡ (if ltb k 2800 then life_rule (cells k) (counted cells k) else cells k)
unfolding gol_update life_rule dies revives has
gol_update-life_rule cells k =
    let marks = mark_rows-IsMarked 40 cells 0 k ([], []) (omega arith) in
    ground (
      arith,
      marks.killed,
      marks.revived,
      set_all-has 1 (mark_rows 40 cells 0 ([], [])).1
          (set_all 0 (mark_rows 40 cells 0 ([], [])).0 cells) k,
      set_all-has 0 (mark_rows 40 cells 0 ([], [])).0 cells k,
    )
