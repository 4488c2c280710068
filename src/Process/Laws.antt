-- ===== src/Process/Laws.antt =====
-- `process_add` and `process_delete` of kernel/scheduler/process.c refine operations on a list.
use mmd_os.Base.{
  ℕ, ◌≤◌, ◌≡◌, refl, arith, if◌then◌else◌, ◌!=◌, ◌⊎◌, inl, inr, ℕ_discrete, ap, eq→==, ne→==, ne→!=,
  ◌≢◌, sym, ◌∙◌, Outcome, ok, ◌>>=◌, List, [], ◌∷◌, ◌++◌, length,
}
use mmd_os.Spinlock.{acquire}
use mmd_os.Process.{
  Kernel, Status, ready, set_status, set_next, process_add, unlink, move_current, process_delete,
  find_before, last_of,
}
use mmd_os.Process.Queue.{
  Chain, Chain-update, Chain-link, Chain-next, NotIn, Distinct, IsIn, IsIn-remove, IsIn-ne_zero,
  remove, last, Distinct-remove, Chain-head, last-ne, last_of_lem, Before, find_before_lem,
}

-- The queue of the kernel holds the PCBs `xs`, each once.
pub record IsQueue (k : Kernel) (xs : List ℕ) : Type 0 where
  pub chain : Chain k.pcb k.processes_list xs
  pub distinct : Distinct xs

abbrev pub next_of : Kernel → ℕ → ℕ
next_of k p = (k.pcb p).next

pub record Added (k : Kernel) (xs : List ℕ) (process : ℕ) (o : Outcome Kernel) : Type 0 where
  pub after : Kernel
  pub result : o ≡ ok after
  pub queue : Chain after.pcb after.processes_list (xs ++ (process ∷ []))
  pub status : (after.pcb process).status ≡ ready
  pub current : after.current_process ≡ k.current_process
  pub kept :
      (p : ℕ)
      → ((after.pcb p).pid ≡ (k.pcb p).pid)
        × ((after.pcb p).kstack ≡ (k.pcb p).kstack)
        × ((after.pcb p).context ≡ (k.pcb p).context)
  pub frames : (after.frame ≡ k.frame) × (after.next_pid ≡ k.next_pid)

pub set_status-next :
    (k : Kernel) (p : ℕ) (st : Status) (q : ℕ) → (k.pcb q).next ≡ ((set_status k p st).pcb q).next
set_status-next k p st q = ground arith

-- With fuel for the members of the queue, `process_add` of a PCB outside the queue, with no
-- successor, appends it in state READY; the current process, frames, process numbers and stacks are
-- as before.
pub process_add_appends :
    (fuel process : ℕ) (k : Kernel) (xs : List ℕ)
    → length xs ≤ fuel
    → IsQueue k xs
    → process ≢ 0
    → next_of k process ≡ 0
    → NotIn process xs
    → Added k xs process (process_add fuel process k)
unfolding process_add
process_add_appends fuel process k [] h q nz fresh n =
    rw (eq→== k.processes_list 0 q.chain) (record {
      after = record (set_status k process ready) { processes_list = process };
      result = refl;
      queue = (refl, nz, ground (arith, fresh));
      status = ground arith;
      current = refl;
      kept = λ p. ground arith;
      frames = (refl, refl);
    })
process_add_appends fuel process k (x ∷ xs) h q nz fresh n =
    rw (ne→== k.processes_list 0 (λ e. c.1 (sym c.0 ∙ e)), found)
      (record {
        after = set_next k' (last x xs) process;
        result = refl;
        queue =
            Chain-link k'.pcb process k.processes_list x xs _ refl nz (ground (arith, fresh)) n
              q.distinct c';
        status =
            rw (ne→== (last x xs) process (last-ne process x xs n), eq→== process process refl);
        current = refl;
        kept = λ p. ground arith;
        frames = (refl, refl);
      })
  where
    k' : Kernel
    k' = set_status k process ready

    c : Chain k.pcb k.processes_list (x ∷ xs)
    c = q.chain

    c' : Chain k'.pcb k.processes_list (x ∷ xs)
    c' =
        Chain-update k.pcb process (record (k.pcb process) { status = ready }) k.processes_list
          (x ∷ xs) n c

    found : last_of fuel k'.pcb k.processes_list ≡ ok (last x xs)
    found = rw c.0 (last_of_lem fuel k'.pcb x xs h c'.2)

-- The queue without `process`; no other field of the kernel is touched, and no status.
record Unlinked (k : Kernel) (xs : List ℕ) (process : ℕ) (o : Outcome Kernel) : Type 0 where
  after : Kernel
  result : o ≡ ok after
  queue : Chain after.pcb after.processes_list (remove process xs)
  current : after.current_process ≡ k.current_process
  freed : after.freed ≡ k.freed
  own_next : next_of after process ≡ next_of k process
  statuses : (p : ℕ) → (after.pcb p).status ≡ (k.pcb p).status

unlink_lem :
    (fuel process : ℕ) (k : Kernel) (xs : List ℕ)
    → length xs ≤ fuel
    → IsQueue k xs
    → IsIn process xs
    → Unlinked k xs process (unlink fuel process k)
unfolding unlink
unlink_lem fuel process k [] h q m = absurd m
unlink_lem fuel process k (x ∷ xs) h q m = elim (ℕ_discrete process x) [
  | yes e ↦ rw (eq→== k.processes_list process (head ∙ sym e)) (record {
    after = record k { processes_list = (k.pcb process).next };
    result = refl;
    queue = rw (eq→== process x e, e) (q.chain).2;
    current = refl;
    freed = refl;
    own_next = refl;
    statuses = λ p. refl;
  })
  | no ne ↦ rw (ne→== k.processes_list process (λ e. ne (sym e ∙ head))) (
      from (
        find_before_lem fuel k.pcb process x xs h (q.chain).1 ne (q.chain).2 (q.distinct).0
          (q.distinct).1 (behind m ne)))
]
  where
    head : k.processes_list ≡ x
    head = (q.chain).0

    behind : IsIn process (x ∷ xs) → process ≢ x → IsIn process xs
    behind (inl e) ne = absurd (ne e)
    behind (inr i) ne = i

    relink : ℕ → Outcome Kernel
    relink scan = ok (set_next k scan (k.pcb process).next)

    from :
        Before k.pcb process x xs (find_before fuel k.pcb process x)
        → Unlinked k (x ∷ xs) process (find_before fuel k.pcb process k.processes_list >>= relink)
    from b = record {
      after = set_next k b.at (k.pcb process).next;
      result = rw (head, b.result) refl;
      queue = rw head b.relinked;
      current = refl;
      freed = refl;
      own_next = ground (arith, b.differs);
      statuses = λ p. ground arith;
    }

-- What `process_delete` leaves behind.
pub record Deleted (k : Kernel) (xs : List ℕ) (process : ℕ) (o : Outcome Kernel) : Type 0 where
  pub after : Kernel
  pub result : o ≡ ok after
  pub queue : IsQueue after (remove process xs)
  pub current : (remove process xs ≡ []) ⊎ IsIn after.current_process (remove process xs)
  pub freed : after.freed ≡ process ∷ k.freed
  pub statuses : (p : ℕ) → (after.pcb p).status ≡ (k.pcb p).status

-- The successor of the current process in the new queue, or its head.
successor :
    (k : Kernel) (xs : List ℕ) (process : ℕ) (k' : Kernel)
    → IsQueue k xs
    → IsIn k.current_process xs
    → Chain k'.pcb k'.processes_list (remove process xs)
    → next_of k' process ≡ next_of k process
    → (next_of k' k.current_process ≡ 0) ⊎ IsIn (next_of k' k.current_process) (remove process xs)
successor k xs process k' q c chain own = elim (ℕ_discrete k.current_process process) [
  | yes e ↦
      rw (e, own)
        (here (Chain-next k.pcb k.processes_list process xs q.chain q.distinct (rw (← e) c)))
  | no ne ↦ there (
      Chain-next k'.pcb k'.processes_list k.current_process (remove process xs) chain
        (Distinct-remove process xs q.distinct) (IsIn-remove process k.current_process xs c ne))
]
  where
    here :
        ((k.pcb process).next ≡ 0)
          ⊎ (IsIn (k.pcb process).next xs × ((k.pcb process).next ≢ process))
        → (next_of k process ≡ 0) ⊎ IsIn (next_of k process) (remove process xs)
    here (inl z) = inl z
    here (inr n) = inr (IsIn-remove process (k.pcb process).next xs n.0 n.1)

    there :
        (next_of k' k.current_process ≡ 0)
          ⊎ (IsIn (next_of k' k.current_process) (remove process xs)
              × (next_of k' k.current_process ≢ k.current_process))
        → (next_of k' k.current_process ≡ 0)
          ⊎ IsIn (next_of k' k.current_process) (remove process xs)
    there (inl z) = inl z
    there (inr n) = inr n.0

-- Where `move_current` goes.
abbrev moved : Kernel → ℕ
moved k = if next_of k k.current_process != 0 then next_of k k.current_process else k.processes_list

move_current_lem :
    (k : Kernel)
    → k.current_process ≢ 0
    → move_current k ≡ ok (record k { current_process = moved k })
unfolding move_current
move_current_lem k ne = rw (ne→== k.current_process 0 ne)

moved-IsIn :
    (k : Kernel) (ys : List ℕ)
    → Chain k.pcb k.processes_list ys
    → (next_of k k.current_process ≡ 0) ⊎ IsIn (next_of k k.current_process) ys
    → (ys ≡ []) ⊎ IsIn (moved k) ys
moved-IsIn k ys c (inl z) = rw z (Chain-head k.pcb k.processes_list ys c)
moved-IsIn k ys c (inr n) = rw (ne→!= _ 0 (IsIn-ne_zero k.pcb k.processes_list _ ys c n)) (inr n)

-- With fuel for the members of the queue, `process_delete` of a PCB in the queue, with the current
-- process in the queue, takes that PCB out and keeps the order of the others; the current process is
-- then in the queue, unless the queue is empty; the PCB goes to `kfree`, and no status changes.
pub process_delete_removes :
    (fuel process : ℕ) (k : Kernel) (xs : List ℕ)
    → length xs ≤ fuel
    → IsQueue k xs
    → IsIn process xs
    → IsIn k.current_process xs
    → Deleted k xs process (process_delete fuel process k)
unfolding process_delete acquire
process_delete_removes fuel process k xs h q m c =
    rw (ne→== process 0 (IsIn-ne_zero k.pcb k.processes_list process xs q.chain m))
      (from (unlink_lem fuel process k xs h q m))
  where
    nonzero : k.current_process ≢ 0
    nonzero = IsIn-ne_zero k.pcb k.processes_list k.current_process xs q.chain c

    finish : Kernel → Outcome Kernel
    finish k' = move_current k' >>= λ k''. ok (record k'' { freed = process ∷ k''.freed })

    from :
        Unlinked k xs process (unlink fuel process k)
        → Deleted k xs process (unlink fuel process k >>= finish)
    from u = rw u.result (
        rw (move_current_lem u.after (λ e. nonzero (sym u.current ∙ e))) (record {
          after = record u.after {
            current_process = moved u.after;
            freed = process ∷ u.after.freed;
          };
          result = refl;
          queue = record { chain = u.queue; distinct = Distinct-remove process xs q.distinct };
          current =
              moved-IsIn u.after (remove process xs) u.queue
                (rw u.current (successor k xs process u.after q c u.queue u.own_next));
          freed = ap (λ l. process ∷ l) u.freed;
          statuses = u.statuses;
        }))
