-- ===== src/Base/Results.antt =====
-- What kernel code can do: return, stop the machine in `panic`, spin for ever on a lock, or, for a
-- loop of the model, run out of fuel.
use mathlib.Core.Path.{◌≡◌, refl}

pub data Outcome {ℓ} (A : Type ℓ) : Type ℓ where
  ok : A → Outcome A
  panicked : Outcome A
  spinning : Outcome A
  out_of_fuel : Outcome A

infixl 5 ◌>>=◌
abbrev pub ◌>>=◌ {ℓ κ} : {A : Type ℓ} {B : Type κ} → Outcome A → (A → Outcome B) → Outcome B
panicked >>= next = panicked
spinning >>= next = spinning
out_of_fuel >>= next = out_of_fuel
ok value >>= next = next value

-- A sequence that returns: its first step returned, and so did the second from there.
pub >>=-eq-ok {ℓ κ} :
    {A : Type ℓ} {B : Type κ} (first : Outcome A) (next : A → Outcome B) {result : B}
    → (first >>= next) ≡ ok result
    → (value : A) × (first ≡ ok value) × (next value ≡ ok result)
>>=-eq-ok panicked next e = cc
>>=-eq-ok spinning next e = cc
>>=-eq-ok out_of_fuel next e = cc
>>=-eq-ok (ok value) next e = (value, refl, e)
