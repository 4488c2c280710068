-- ===== src/Memory/Bytes.antt =====
-- Lists of bytes of memory.
use mmd_os.Base.{ℕ, zero, suc, ◌+◌, ◌<◌, ◌≡◌, refl, ap, ap₂, ◌∙◌, arith, ◌∷◌, ◌++◌}
use mmd_os.Memory.{Memory, bytes}

pub bytes-agree :
    (n : ℕ) (m m' : Memory) (p p' : ℕ)
    → ((i : ℕ) → i < n → m' (p' + i) ≡ m (p + i))
    → bytes m' p' n ≡ bytes m p n
unfolding bytes
bytes-agree zero m m' p p' agrees = refl
bytes-agree (suc n) m m' p p' agrees =
    ap₂ (λ x xs. x ∷ xs) first (bytes-agree n m m' (p + 1) (p' + 1) next)
  where
    first : m' p' ≡ m p
    first = ap m' (omega arith) ∙ agrees 0 (omega arith) ∙ ap m (omega arith)

    next : (i : ℕ) → i < n → m' (p' + 1 + i) ≡ m (p + 1 + i)
    next i h = ap m' (omega arith) ∙ agrees (suc i) (omega arith) ∙ ap m (omega arith)

pub bytes-append :
    (n k : ℕ) (m : Memory) (p : ℕ) → bytes m p (n + k) ≡ bytes m p n ++ bytes m (p + n) k
unfolding bytes
bytes-append zero k m p = ap₂ (bytes m) (omega arith) (omega arith)
bytes-append (suc n) k m p =
    ap (bytes m p) {y = suc (n + k)} (omega arith)
    ∙ ap (λ xs. m p ∷ xs)
        (bytes-append n k m (p + 1)
          ∙ ap (λ q. bytes m (p + 1) n ++ bytes m q k) {y = p + suc n} (omega arith))
