-- ===== src/Scheduler/Result.antt =====
-- What `schedule` of kernel/scheduler/scheduler.c returns to the timer interrupt.
use mmd_os.Base.{
  ℕ, ◌≡◌, refl, arith, Bool, true, false, ◌⊎◌, inl, inr, ℕ_discrete, eq→==, ne→==, ◌≢◌, sym,
  Outcome, ok, panicked, ◌>>=◌, >>=-eq-ok,
}
use mmd_os.Process.{Status, ready, running, Kernel, set_status}
use mmd_os.Process.Laws.{set_status-next}
use mmd_os.Scheduler.{
  pick, run_next, context_switch, schedule, first_locals, started, default_quantum,
}
use mmd_os.Scheduler.Loop.{Picked}

-- The frame returned is that of the current process, which is RUNNING.
pub record Resumes (k : Kernel) (frame : ℕ) : Type 0 where
  pub status : (k.pcb k.current_process).status ≡ running
  pub context : frame ≡ (k.pcb k.current_process).context

run_next-Resumes :
    (p : ℕ) (switched : Bool) (k : Kernel)
    → let (frame, k') = run_next (p, switched, k) in Resumes k' frame
unfolding run_next context_switch
run_next-Resumes p true k = record { status = ground arith; context = ground arith }
run_next-Resumes p false k = record { status = ground arith; context = ground arith }

-- Whenever `schedule` returns, the current process is RUNNING and the frame returned is its own.
pub schedule-Resumes :
    (rounds fuel context : ℕ) (k : Kernel) {frame : ℕ} {k' : Kernel}
    → schedule rounds fuel context k ≡ ok (frame, k')
    → Resumes k' frame
unfolding schedule
schedule-Resumes rounds fuel context k {frame} {k'} e = elim (ℕ_discrete k.processes_list 0) [
  | yes z ↦ absurd (empty (rw (eq→== k.processes_list 0 z) at e))
  | no nz ↦
      let (r, picked, done) =
        >>=-eq-ok (pick rounds fuel context (first_locals k) (started k)) (λ r. ok (run_next r))
          (rw (ne→== k.processes_list 0 nz) at e) in
      let ef : (run_next r).0 ≡ frame = cc done in
      let ek : (run_next r).1 ≡ k' = cc done in rw (← ef, ← ek) (run_next-Resumes r.0 r.1 r.2)
]
  where
    empty : ◌≡◌ {A = Outcome (ℕ × Kernel)} panicked (ok (frame, k')) → ⊥
    empty q = cc

-- What is known of the process that is switched to.
pub record Switched (k : Kernel) (z : ℕ) (o : Outcome (ℕ × Kernel)) : Type 0 where
  pub after : Kernel
  pub result : o ≡ ok ((k.pcb z).context, after)
  pub current : after.current_process ≡ z
  pub status : (after.pcb z).status ≡ running
  pub quantum : (after.pcb z).remaining_quantum ≡ default_quantum
  pub stack : after.rsp0 ≡ (k.pcb z).kstack
  pub space : after.active_vmm ≡ (k.pcb z).vmm
  pub links : (p : ℕ) → (after.pcb p).next ≡ (k.pcb p).next
  pub head : after.processes_list ≡ k.processes_list
  pub others : (p : ℕ) → p ≢ z → after.pcb p ≡ k.pcb p

-- A kernel that differs from `k` at most in the status of `z`.
record Same (k : Kernel) (z : ℕ) (k' : Kernel) : Type 0 where
  frame : (k'.pcb z).context ≡ (k.pcb z).context
  stack : (k'.pcb z).kstack ≡ (k.pcb z).kstack
  space : (k'.pcb z).vmm ≡ (k.pcb z).vmm
  links : (p : ℕ) → (k'.pcb p).next ≡ (k.pcb p).next
  head : k'.processes_list ≡ k.processes_list
  others : (p : ℕ) → p ≢ z → k'.pcb p ≡ k.pcb p

Same-refl : (k : Kernel) (z : ℕ) → Same k z k
Same-refl k z = record {
  frame = refl;
  stack = refl;
  space = refl;
  links = λ p. refl;
  head = refl;
  others = λ p ne. refl;
}

Same-set_status : (k : Kernel) (z : ℕ) (st : Status) → Same k z (set_status k z st)
Same-set_status k z st = record {
  frame = ground arith;
  stack = ground arith;
  space = ground arith;
  links = λ p. sym (set_status-next k z st p);
  head = refl;
  others = λ p ne. rw (ne→== z p (λ e. ne (sym e)));
}

Picked-Same :
    {k : Kernel} {z : ℕ} {o : Outcome (ℕ × Bool × Kernel)} (p : Picked k z o) → Same k z p.after
Picked-Same {k} {z} p = from p.change
  where
    from : (p.after ≡ k) ⊎ (p.after ≡ set_status k z ready) → Same k z p.after
    from (inl e) = rw e (Same-refl k z)
    from (inr e) = rw e (Same-set_status k z ready)

run_next-Switched :
    (k : Kernel) (z : ℕ) (k' : Kernel) → Same k z k' → Switched k z (ok (run_next (z, true, k')))
unfolding run_next context_switch
run_next-Switched k z k' s = record {
  after = (run_next (z, true, k')).1;
  result = ground (arith, s.frame);
  current = refl;
  status = ground arith;
  quantum = ground arith;
  stack = ground (arith, s.stack);
  space = ground (arith, s.space);
  links = λ p. ground (arith, s.links p);
  head = s.head;
  others = λ p ne. ground (arith, s.others p ne);
}

-- From the loop's result to what follows it.
pub Picked→Switched :
    (k : Kernel) (z : ℕ) (o : Outcome (ℕ × Bool × Kernel))
    → Picked k z o
    → Switched k z (o >>= λ r. ok (run_next r))
Picked→Switched k z o p = rw p.result (run_next-Switched k z p.after (Picked-Same p))
