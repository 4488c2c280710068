-- ===== src/Scheduler/Rotate.antt =====
-- Round robin in `schedule` of kernel/scheduler/scheduler.c: a running process keeps the CPU while it
-- has quantum, and then the next process of the queue that waits for its turn gets it.
use mmd_os.Base.{
  ℕ, zero, suc, ◌+◌, ◌<◌, ◌≡◌, refl, arith, true, false, inl, inr, ne→==, ne→!=, eq→!=, ◌≢◌, sym,
  fun_ext, ap₂, ◌∙◌, ok, ◌>>=◌, List, [], ◌∷◌, ◌++◌, length,
}
use mmd_os.Process.{running, Pcb, Kernel, put}
use mmd_os.Process.Queue.{Chain, Chain-ext, NotIn, Distinct}
use mmd_os.Process.Laws.{IsQueue}
use mmd_os.Scheduler.{
  Locals, advance, pick, run_next, schedule, first_locals, started, decrement16, positive16,
}
use mmd_os.Scheduler.Step.{IsRunnable, expired, ticked, round-expired, round-goes_on}
use mmd_os.Scheduler.Loop.{First, Picked, pick_up_to, pick_around, Chain-nonzero}
use mmd_os.Scheduler.Result.{Switched, Picked→Switched}

middle-ne : (b c : ℕ) (bs cs : List ℕ) → NotIn b (bs ++ (c ∷ cs)) → b ≢ c
middle-ne b c [] cs n = n.0
middle-ne b c (a ∷ bs) cs n = middle-ne b c bs cs n.1

NotIn-middle : (c : ℕ) (bs cs : List ℕ) → Distinct (bs ++ (c ∷ cs)) → NotIn c bs × NotIn c cs
NotIn-middle c [] cs d = (tt, d.0)
NotIn-middle c (b ∷ bs) cs d =
    let (n, m) = NotIn-middle c bs cs d.1 in ((λ e. middle-ne b c bs cs d.0 (sym e), n), m)

NotIn-append : (c : ℕ) (xs ys : List ℕ) → NotIn c xs → NotIn c ys → NotIn c (xs ++ ys)
NotIn-append c [] ys n m = m
NotIn-append c (x ∷ xs) ys n m = (n.0, NotIn-append c xs ys n.1 m)

-- The processes behind the `c` of a queue.
Chain-drop :
    (f : ℕ → Pcb) (p c : ℕ) (bs cs : List ℕ) → Chain f p (bs ++ (c ∷ cs)) → Chain f (f c).next cs
Chain-drop f p c [] cs h = h.2
Chain-drop f p c (b ∷ bs) cs h = Chain-drop f (f b).next c bs cs h.2

-- The expired process apart, nothing changes when its quantum runs out.
First-expired :
    (context : ℕ) (k : Kernel) (c z : ℕ) (xs : List ℕ)
    → NotIn c xs
    → First k c xs z
    → First (expired context k c) c xs z
First-expired context k c z [] n f = f
First-expired context k c z (x ∷ xs) n (inl f) = inl (rw (ne→== c x n.0) f.0, f.1)
First-expired context k c z (x ∷ xs) n (inr f) =
    inr (rw (ne→== c x n.0) f.0, First-expired context k c z xs n.1 f.1)

expired-next :
    (context : ℕ) (k : Kernel) (p q : ℕ) → (k.pcb q).next ≡ ((expired context k p).pcb q).next
expired-next context k p q = ground arith

-- The search that starts behind `c`.
search_behind :
    (fuel context n c z : ℕ) (k : Kernel) (bs cs : List ℕ) (l : Locals)
    → l.current ≡ c
    → length bs + length cs < n
    → length bs + length cs < fuel
    → IsRunnable k c
    → Chain k.pcb (k.pcb c).next cs
    → Chain k.pcb l.processes (bs ++ (c ∷ cs))
    → First k c (cs ++ bs) z
    → Picked k z (pick n fuel context (advance l k) k)
search_behind fuel context n c z k bs [] l e h room r tail head f =
    rw (e, eq→!= (k.pcb c).next 0 tail)
      (pick_up_to fuel context k n c z bs [] (record l { current = l.processes }) (omega arith) room
        (Chain-nonzero fuel context k l.processes c bs [] head) r head f)
search_behind fuel context n c z k bs (a ∷ cs) l e h room r tail head f =
    rw (e, ne→!= (k.pcb c).next 0 (λ q. tail.1 (sym tail.0 ∙ q)))
      (pick_around fuel context k n c z (a ∷ cs) bs (a ∷ cs) (record l { current = (k.pcb c).next })
        (omega arith) (omega arith) room r tail head (λ q. cc q) f)

module _ (rounds fuel context : ℕ) (k : Kernel) (bs cs : List ℕ) (c : ℕ)
    (queue : IsQueue k (bs ++ (c ∷ cs))) (current : k.current_process ≡ c)
    (is_running : (k.pcb c).status ≡ running) (room : length bs + length cs + 1 < fuel)
    (enough : length bs + length cs + 1 < rounds) where
  head_nonzero : k.processes_list ≢ 0
  head_nonzero = Chain-nonzero fuel context k k.processes_list c bs cs queue.chain

  c_nonzero : (f : ℕ → Pcb) (p : ℕ) (bs : List ℕ) → Chain f p (bs ++ (c ∷ cs)) → c ≢ 0
  c_nonzero f p [] h = h.1
  c_nonzero f p (b ∷ bs) h = c_nonzero f (f b).next bs h.2

  abbrev here : Locals
  here = record { current = c; processes = k.processes_list; switched = false }

  abbrev later : Kernel
  later = expired context k c

  current_nonzero : k.current_process ≢ 0
  current_nonzero e = c_nonzero k.pcb k.processes_list bs queue.chain (sym current ∙ e)

  started-eq : (started k ≡ k) × (first_locals k ≡ here)
  started-eq = rw (ne→== k.current_process 0 current_nonzero) (refl, ground arith)

  schedule-begins :
      schedule rounds fuel context k ≡ (pick rounds fuel context here k >>= λ r. ok (run_next r))
  unfolding schedule
  schedule-begins = rw (ne→== k.processes_list 0 head_nonzero) (
      ap₂ (λ l k'. pick rounds fuel context l k' >>= λ r. ok (run_next r)) started-eq.1
        started-eq.0)

  later-Chain : (p : ℕ) (xs : List ℕ) → Chain k.pcb p xs → Chain later.pcb p xs
  later-Chain p xs h = Chain-ext k.pcb later.pcb p xs (expired-next context k c) h

  behind : Chain later.pcb (later.pcb c).next cs
  behind =
      rw (← expired-next context k c c)
        (later-Chain (k.pcb c).next cs (Chain-drop k.pcb k.processes_list c bs cs queue.chain))

  abbrev on : Locals
  on = record { current = c; processes = k.processes_list; switched = true }

  pick-expired :
      (n : ℕ)
      → positive16 (decrement16 (k.pcb c).remaining_quantum) ≡ false
      → pick (suc n) fuel context here k ≡ pick n fuel context (advance on later) later
  unfolding pick
  pick-expired n out = rw (round-expired fuel context here k head_nonzero is_running out)

  -- In a queue within the fuel and the rounds, the current process is RUNNING in its last tick: the
  -- first process behind it, going round the queue, that is SPAWNED or READY is run next, if those
  -- before it sleep beyond the present time; and the current process itself if all others do. It
  -- gets a full quantum, its stack and its address space are loaded, and the queue keeps its order.
  pub schedule_rotates :
      (z : ℕ)
      → positive16 (decrement16 (k.pcb c).remaining_quantum) ≡ false
      → First k c (cs ++ bs) z
      → Switched (expired context k c) z (schedule rounds fuel context k)
  schedule_rotates z out f = rw schedule-begins (from rounds enough)
    where
      fresh : NotIn c bs × NotIn c cs
      fresh = NotIn-middle c bs cs queue.distinct

      from :
          (r : ℕ)
          → length bs + length cs + 1 < r
          → Switched later z (pick r fuel context here k >>= λ r. ok (run_next r))
      from zero h = absurd (omega arith)
      from (suc n) h = rw (pick-expired n out) (
          Picked→Switched later z (pick n fuel context (advance on later) later) (
            search_behind fuel context n c z later bs cs on refl (omega arith) (omega arith)
              (inr (ground arith)) behind
              (later-Chain k.processes_list (bs ++ (c ∷ cs)) queue.chain)
              (First-expired context k c z (cs ++ bs) (NotIn-append c cs bs fresh.1 fresh.0) f)))

  pick-goes_on :
      (n : ℕ)
      → positive16 (decrement16 (k.pcb c).remaining_quantum) ≡ true
      → pick (suc n) fuel context here k ≡ ok (c, false, ticked context k c)
  unfolding pick
  pick-goes_on n left = rw (
      round-goes_on fuel context here k cs head_nonzero is_running left (omega arith)
        (Chain-drop k.pcb k.processes_list c bs cs queue.chain))

  abbrev resumed : Kernel
  resumed =
      let t = ticked context k c in
      put (record t { current_process = c }) c (record (t.pcb c) { status = running })

  resumed-pcb : (q : ℕ) → resumed.pcb q ≡ (ticked context k c).pcb q
  resumed-pcb q = ground (arith, is_running)

  resumed-eq : resumed ≡ ticked context k c
  resumed-eq = λ i. record (ticked context k c) {
    pcb = fun_ext resumed-pcb i;
    current_process = sym current i;
  }

  run_next-ticked : run_next (c, false, ticked context k c) ≡ (context, ticked context k c)
  unfolding run_next
  run_next-ticked = ap₂ (λ f k'. (f, k')) (ground arith) resumed-eq

  -- In a queue within the fuel and the rounds, the current process is RUNNING with quantum left: it
  -- goes on in the frame of the interrupt, one tick shorter; stack, address space, queue and every
  -- other process are as they were.
  pub schedule_keeps :
      positive16 (decrement16 (k.pcb c).remaining_quantum) ≡ true
      → schedule rounds fuel context k ≡ ok (context, ticked context k c)
  schedule_keeps left = rw schedule-begins (from rounds enough)
    where
      from :
          (r : ℕ)
          → length bs + length cs + 1 < r
          → (pick r fuel context here k >>= λ r. ok (run_next r)) ≡ ok (context, ticked context k c)
      from zero h = absurd (omega arith)
      from (suc n) h = rw (pick-goes_on n left, run_next-ticked) refl
