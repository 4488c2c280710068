-- ===== src/Snake/Entries.antt =====
-- Stretches of the arrays of programs/snake/snake.c as lists, and its loop that shifts one.
use mmd_os.Base.{
  ℕ, zero, suc, ◌+◌, ◌<◌, ◌≡◌, refl, ap, ap₂, ◌∙◌, arith, if◌then◌else◌, ltb, leb, ◌&&◌, ℕ_discrete,
  List, [], ◌∷◌, ◌++◌,
}
use mmd_os.Snake.{store, shift_cells}

-- `n` entries of the array from `i` on.
unfoldable pub entries : ℕ → ℕ → (ℕ → ℕ) → List ℕ
entries zero i snake = []
entries (suc n) i snake = snake i ∷ entries n (i + 1) snake

pub entries-agree :
    (n i i' : ℕ) (snake snake' : ℕ → ℕ)
    → ((q : ℕ) → q < n → snake' (i' + q) ≡ snake (i + q))
    → entries n i' snake' ≡ entries n i snake
unfolding entries
entries-agree zero i i' snake snake' agrees = refl
entries-agree (suc n) i i' snake snake' agrees =
    ap₂ (λ x xs. x ∷ xs) first (entries-agree n (i + 1) (i' + 1) snake snake' next)
  where
    first : snake' i' ≡ snake i
    first = ap snake' (omega arith) ∙ agrees 0 (omega arith) ∙ ap snake (omega arith)

    next : (q : ℕ) → q < n → snake' (i' + 1 + q) ≡ snake (i + 1 + q)
    next q h = ap snake' (omega arith) ∙ agrees (suc q) (omega arith) ∙ ap snake (omega arith)

pub entries-last :
    (n i : ℕ) (snake : ℕ → ℕ) → entries (suc n) i snake ≡ entries n i snake ++ snake (i + n) ∷ []
unfolding entries
entries-last zero i snake = ap (λ (x : ℕ). snake x ∷ []) (omega arith)
entries-last (suc n) i snake =
    ap (λ xs. snake i ∷ xs)
      (entries-last n (i + 1) snake
        ∙ ap (λ q. entries n (i + 1) snake ++ snake q ∷ []) {y = i + suc n} (omega arith))

pub shift_cells_lem :
    (n h : ℕ) (snake : ℕ → ℕ) (q : ℕ)
    → shift_cells n h snake q ≡ (if leb h q && ltb q (h + n) then snake (q + 1) else snake q)
unfolding shift_cells
shift_cells_lem zero h snake q = ground arith
shift_cells_lem (suc n) h snake q = elim (ℕ_discrete h q) [
  | yes e ↦ rw e (ground (arith, shift_cells_lem n (q + 1) (store q (snake (q + 1)) snake) q))
  | no k ↦ ground (arith, shift_cells_lem n (h + 1) (store h (snake (h + 1)) snake) q, k)
]
