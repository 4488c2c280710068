-- ===== src/Scheduler/Step.antt =====
-- One round of the loop of `schedule` in kernel/scheduler/scheduler.c, state by state.
use mmd_os.Base.{
  ℕ, zero, suc, ◌≤◌, ◌<◌, ◌≡◌, refl, arith, Bool, true, false, if◌then◌else◌, ◌⊎◌, inl, inr,
  ℕ_discrete, ap, eq→==, ne→==, ◌≢◌, ◌∙◌, ok, List, [], ◌∷◌, length,
}
use mmd_os.Process.{Status, spawned, ready, running, sleeping, Kernel, put, set_status}
use mmd_os.Process.Queue.{Chain, Chain-ext}
use mmd_os.Process.Laws.{set_status-next}
use mmd_os.Scheduler.{
  Locals, leave, again, advance, all_asleep, stay_idle, stop_at, tick_running, try_wake, dispatch,
  round, is_sleeping, decrement16, positive16,
}

all_asleep_total :
    (fuel : ℕ) (k : Kernel) (p : ℕ) (xs : List ℕ)
    → length xs < fuel
    → Chain k.pcb p xs
    → (b : Bool) × (all_asleep fuel k p ≡ ok b)
unfolding all_asleep
all_asleep_total zero k p xs h c = absurd (omega arith)
all_asleep_total (suc fuel) k p [] h c = (true, rw (eq→== p 0 c))
all_asleep_total (suc fuel) k p (x ∷ xs) h c =
    rw (c.0, ne→== x 0 c.1)
      (by_test (is_sleeping (k.pcb x).status)
        (all_asleep_total fuel k (k.pcb x).next xs (omega arith) c.2))
  where
    by_test :
        (t : Bool)
        → (b : Bool) × (all_asleep fuel k (k.pcb x).next ≡ ok b)
        → (b : Bool) × ((if t then all_asleep fuel k (k.pcb x).next else ok false) ≡ ok b)
    by_test true rest = rest
    by_test false rest = (false, refl)

-- With the queue behind the process within the fuel, leaving the loop always succeeds.
pub stop_at_lem :
    (fuel : ℕ) (l : Locals) (k : Kernel) (xs : List ℕ)
    → length xs < fuel
    → Chain k.pcb (k.pcb l.current).next xs
    → stop_at fuel l k ≡ ok (leave l.current l.switched k)
unfolding stop_at stay_idle
stop_at_lem fuel l k xs h c =
    let (b, e) = all_asleep_total fuel k (k.pcb l.current).next xs h c in
    elim (ℕ_discrete (k.pcb l.current).pid 1) [
      | yes one ↦ rw (eq→== _ 1 one, e)
      | no other ↦ rw (ne→== _ 1 other)
    ]

-- Waiting for its turn: new, or ready.
abbrev pub IsRunnable : Kernel → ℕ → Type 0
IsRunnable k p = ((k.pcb p).status ≡ spawned) ⊎ ((k.pcb p).status ≡ ready)

-- Asleep until a time that has not passed.
abbrev pub IsAsleep : Kernel → ℕ → Type 0
IsAsleep k p = ((k.pcb p).status ≡ sleeping) × (k.uptime ≤ (k.pcb p).wake_time)

pub round-asleep :
    (fuel context : ℕ) (l : Locals) (k : Kernel)
    → l.processes ≢ 0
    → IsAsleep k l.current
    → round fuel context l k ≡ ok (again (advance l k) k)
unfolding round dispatch try_wake
round-asleep fuel context l k nz h = rw (ne→== l.processes 0 nz, h.0) (ground arith)

-- The kernel once a waiting process is chosen: its status is READY.
pub round-runnable :
    (fuel context : ℕ) (l : Locals) (k : Kernel) (xs : List ℕ)
    → l.processes ≢ 0
    → IsRunnable k l.current
    → length xs < fuel
    → Chain k.pcb (k.pcb l.current).next xs
    → (k' : Kernel) × (round fuel context l k ≡ ok (leave l.current true k'))
      × ((k' ≡ k) ⊎ (k' ≡ set_status k l.current ready))
unfolding round dispatch
round-runnable fuel context l k xs nz (inl new) h c =
    (k', rw (ne→== l.processes 0 nz, new) (stop_at_lem fuel _ k' xs h chain'), inr refl)
  where
    k' : Kernel
    k' = set_status k l.current ready

    chain' : Chain k'.pcb (k'.pcb l.current).next xs
    chain' =
        rw (← set_status-next k l.current ready l.current)
          (Chain-ext k.pcb k'.pcb (k.pcb l.current).next xs (set_status-next k l.current ready) c)
round-runnable fuel context l k xs nz (inr old) h c =
    (k, rw (ne→== l.processes 0 nz, old) (stop_at_lem fuel _ k xs h c), inl refl)

-- The kernel once the current process has used up its quantum.
abbrev pub expired : ℕ → Kernel → ℕ → Kernel
expired context k p =
    let q = k.pcb p in
    let k' =
      put k p
        (record q { remaining_quantum = decrement16 q.remaining_quantum; context = context }) in
    set_status k' p ready

round-dispatch :
    (fuel context : ℕ) (l : Locals) (k : Kernel) (st : Status)
    → l.processes ≢ 0
    → (k.pcb l.current).status ≡ st
    → round fuel context l k ≡ dispatch st fuel context l k
unfolding round
round-dispatch fuel context l k st nz h =
    rw (ne→== l.processes 0 nz) (ap (λ t. dispatch t fuel context l k) h)

tick_running-expired :
    (fuel context : ℕ) (l : Locals) (k : Kernel)
    → positive16 (decrement16 (k.pcb l.current).remaining_quantum) ≡ false
    → tick_running fuel context l k
      ≡ ok (
          again
            (advance (record l { switched = true }) (expired context k l.current))
            (expired context k l.current))
unfolding tick_running
tick_running-expired fuel context l k out = rw out refl

pub round-expired :
    (fuel context : ℕ) (l : Locals) (k : Kernel)
    → l.processes ≢ 0
    → (k.pcb l.current).status ≡ running
    → positive16 (decrement16 (k.pcb l.current).remaining_quantum) ≡ false
    → round fuel context l k
      ≡ ok (
          again
            (advance (record l { switched = true }) (expired context k l.current))
            (expired context k l.current))
unfolding dispatch
round-expired fuel context l k nz h out =
    round-dispatch fuel context l k running nz h ∙ tick_running-expired fuel context l k out

-- With quantum left the running process goes on, one tick shorter.
abbrev pub ticked : ℕ → Kernel → ℕ → Kernel
ticked context k p =
    let q = k.pcb p in
    put k p (record q { remaining_quantum = decrement16 q.remaining_quantum; context = context })

tick_running-goes_on :
    (fuel context : ℕ) (l : Locals) (k : Kernel)
    → positive16 (decrement16 (k.pcb l.current).remaining_quantum) ≡ true
    → tick_running fuel context l k ≡ stop_at fuel l (ticked context k l.current)
unfolding tick_running
tick_running-goes_on fuel context l k left = rw left refl

ticked-next :
    (context : ℕ) (k : Kernel) (p q : ℕ) → (k.pcb q).next ≡ ((ticked context k p).pcb q).next
ticked-next context k p q = ground arith

pub round-goes_on :
    (fuel context : ℕ) (l : Locals) (k : Kernel) (xs : List ℕ)
    → l.processes ≢ 0
    → (k.pcb l.current).status ≡ running
    → positive16 (decrement16 (k.pcb l.current).remaining_quantum) ≡ true
    → length xs < fuel
    → Chain k.pcb (k.pcb l.current).next xs
    → round fuel context l k ≡ ok (leave l.current l.switched (ticked context k l.current))
unfolding dispatch
round-goes_on fuel context l k xs nz h left room c =
    round-dispatch fuel context l k running nz h
    ∙ tick_running-goes_on fuel context l k left
    ∙ stop_at_lem fuel l (ticked context k l.current) xs room (
        rw (← ticked-next context k l.current l.current) (
          Chain-ext k.pcb (ticked context k l.current).pcb (k.pcb l.current).next xs
            (ticked-next context k l.current) c))
