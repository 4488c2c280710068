-- ===== src/Scheduler/Loop.antt =====
-- The loop of `schedule` in kernel/scheduler/scheduler.c goes round the queue to the first process
-- that waits for its turn.
use mmd_os.Base.{
  ℕ, zero, suc, ◌+◌, ◌<◌, ◌≡◌, refl, arith, Bool, true, ◌⊎◌, inl, inr, ne→!=, eq→!=, ◌≢◌, sym, ◌∙◌,
  Outcome, ok, List, [], ◌∷◌, ◌++◌, length, length-append,
}
use mmd_os.Process.{ready, Kernel, set_status}
use mmd_os.Process.Queue.{Chain}
use mmd_os.Scheduler.{Locals, advance, pick}
use mmd_os.Scheduler.Step.{IsRunnable, IsAsleep, round-asleep, round-runnable}

-- `z` is the first of the processes to wait for its turn and those before it are asleep, or all are
-- asleep and `z` is `c`.
abbrev pub First : Kernel → ℕ → List ℕ → ℕ → Type 0
First k c [] z = z ≡ c
First k c (x ∷ xs) z = (IsRunnable k x × (z ≡ x)) ⊎ (IsAsleep k x × First k c xs z)

pub record Picked (k : Kernel) (z : ℕ) (o : Outcome (ℕ × Bool × Kernel)) : Type 0 where
  pub after : Kernel
  pub result : o ≡ ok (z, true, after)
  pub change : (after ≡ k) ⊎ (after ≡ set_status k z ready)

module _ (fuel context : ℕ) (k : Kernel) where
  pick-runnable :
      (n : ℕ) (l : Locals) (xs : List ℕ)
      → l.processes ≢ 0
      → IsRunnable k l.current
      → length xs < fuel
      → Chain k.pcb (k.pcb l.current).next xs
      → Picked k l.current (pick (suc n) fuel context l k)
  unfolding pick
  pick-runnable n l xs nz r h c =
      let (k', e, change) = round-runnable fuel context l k xs nz r h c in
      record { after = k'; result = rw e refl; change = change }

  pick-asleep :
      (n : ℕ) (l : Locals)
      → l.processes ≢ 0
      → IsAsleep k l.current
      → pick (suc n) fuel context l k ≡ pick n fuel context (advance l k) k
  unfolding pick
  pick-asleep n l nz h = rw (round-asleep fuel context l k nz h)

  pub Chain-nonzero : (p c : ℕ) (bs cs : List ℕ) → Chain k.pcb p (bs ++ (c ∷ cs)) → p ≢ 0
  Chain-nonzero p c [] cs h = λ e. h.1 (sym h.0 ∙ e)
  Chain-nonzero p c (b ∷ bs) cs h = λ e. h.1 (sym h.0 ∙ e)

  -- From a place before `c` in the queue.
  pub pick_up_to :
      (n c z : ℕ) (bs cs : List ℕ) (l : Locals)
      → length bs < n
      → length bs + length cs < fuel
      → l.processes ≢ 0
      → IsRunnable k c
      → Chain k.pcb l.current (bs ++ (c ∷ cs))
      → First k c bs z
      → Picked k z (pick n fuel context l k)
  pick_up_to zero c z bs cs l h room nz r chain f = absurd (omega arith)
  pick_up_to (suc n) c z [] cs l h room nz r chain f =
      rw (f ∙ sym chain.0)
        (pick-runnable n l cs nz (rw chain.0 r) (omega arith) (rw chain.0 chain.2))
  pick_up_to (suc n) c z (b ∷ bs) cs l h room nz r chain (inl f) = rw (f.1 ∙ sym chain.0) (
      pick-runnable n l (bs ++ (c ∷ cs)) nz (rw chain.0 f.0)
        (omega (arith, length-append bs (c ∷ cs))) (rw chain.0 chain.2))
  pick_up_to (suc n) c z (b ∷ bs) cs l h room nz r chain (inr f) =
      rw (pick-asleep n l nz (rw chain.0 f.0), chain.0, ne→!= _ 0 (Chain-nonzero _ c bs cs chain.2))
        (pick_up_to n c z bs cs (record l { current = (k.pcb b).next }) (omega arith) (omega arith)
          nz r chain.2 f.1)

  -- From a place behind `c`: on to the end of the queue, and then from its head up to `c`.
  pub pick_around :
      (n c z : ℕ) (cs bs ds : List ℕ) (l : Locals)
      → length cs + length bs < n
      → length cs < fuel
      → length bs + length ds < fuel
      → IsRunnable k c
      → Chain k.pcb l.current cs
      → Chain k.pcb l.processes (bs ++ (c ∷ ds))
      → cs ≢ []
      → First k c (cs ++ bs) z
      → Picked k z (pick n fuel context l k)
  pick_around n c z [] bs ds l h room room' r tail head ne f = absurd (ne refl)
  pick_around zero c z (a ∷ cs) bs ds l h room room' r tail head ne f = absurd (omega arith)
  pick_around (suc n) c z (a ∷ cs) bs ds l h room room' r tail head ne (inl f) =
      rw (f.1 ∙ sym tail.0) (
        pick-runnable n l cs (Chain-nonzero l.processes c bs ds head) (rw tail.0 f.0) (omega arith)
          (rw tail.0 tail.2))
  pick_around (suc n) c z (a ∷ []) bs ds l h room room' r tail head ne (inr f) =
      rw
        (
          pick-asleep n l (Chain-nonzero l.processes c bs ds head) (rw tail.0 f.0),
          tail.0,
          eq→!= (k.pcb a).next 0 tail.2,
        )
        (pick_up_to n c z bs ds (record l { current = l.processes }) (omega arith) room'
          (Chain-nonzero l.processes c bs ds head) r head f.1)
  pick_around (suc n) c z (a ∷ b ∷ cs) bs ds l h room room' r tail head ne (inr f) =
      rw
        (
          pick-asleep n l (Chain-nonzero l.processes c bs ds head) (rw tail.0 f.0),
          tail.0,
          ne→!= (k.pcb a).next 0 (λ e. (tail.2).1 (sym (tail.2).0 ∙ e)),
        )
        (pick_around n c z (b ∷ cs) bs ds (record l { current = (k.pcb a).next }) (omega arith)
          (omega arith) room' r tail.2 head (λ e. cc e) f.1)
