-- ===== src/Scheduler.antt =====
-- The round-robin scheduler: kernel/scheduler/scheduler.c, and the timer tick of interrupts/timer.c
-- that calls it.
mod Tests
pub mod Step
pub mod Loop
pub mod Result
pub mod Rotate
use mmd_os.Base.{
  ℕ, zero, suc, ◌+◌, ◌-◌, ◌%◌, ◌^◌, Bool, true, false, if◌then◌else◌, ltb, ◌==◌, ◌!=◌, ◌&&◌,
  Outcome, ok, panicked, out_of_fuel, ◌>>=◌, u64,
}
use mmd_os.Process.{
  Status, spawned, ready, running, sleeping, dead, Pcb, Kernel, put, set_status, process_delete,
}

abbrev pub default_quantum : ℕ
default_quantum = 3

-- `remaining_quantum--` and `remaining_quantum > 0` on an `int16_t`.
abbrev pub decrement16 : ℕ → ℕ
decrement16 q = (q + 2 ^ 16 - 1) % 2 ^ 16

abbrev pub positive16 : ℕ → Bool
positive16 q = ltb 0 q && ltb q (2 ^ 15)

-- `scheduler_context_switch`: the frame to resume, with the kernel stack and address space loaded.
unfoldable pub context_switch : Kernel → ℕ × Kernel
context_switch k =
    let p = k.pcb k.current_process in (p.context, record k { rsp0 = p.kstack; active_vmm = p.vmm })

abbrev pub is_sleeping : Status → Bool
is_sleeping sleeping = true
is_sleeping _ = false

-- The loop of `stay_idle`, on fuel.
unfoldable pub all_asleep : ℕ → Kernel → ℕ → Outcome Bool
all_asleep zero k process = out_of_fuel
all_asleep (suc fuel) k process =
    let rest = all_asleep fuel k (k.pcb process).next in
    if process == 0 then ok true else if is_sleeping (k.pcb process).status then rest else ok false

unfoldable pub stay_idle : ℕ → Kernel → ℕ → Outcome Bool
stay_idle fuel k process = all_asleep fuel k (k.pcb process).next

-- The locals of `schedule` at the head of its loop.
pub record Locals : Type 0 where
  pub current : ℕ
  pub processes : ℕ
  pub switched : Bool

-- One round either leaves the loop, with the process to run, or goes on.
pub data Round : Type 0 where
  leave : ℕ → Bool → Kernel → Round
  again : Locals → Kernel → Round

-- `current_process->next`, or the head of the queue.
abbrev pub advance : Locals → Kernel → Locals
advance l k = record l {
  current = if (k.pcb l.current).next != 0 then (k.pcb l.current).next else l.processes;
}

-- `still_scheduling` is false. The test of the idle process sets it to false once more, so its
-- result is not used.
unfoldable pub stop_at : ℕ → Locals → Kernel → Outcome Round
stop_at fuel l k =
    let out = ok (leave l.current l.switched k) in
    if (k.pcb l.current).pid == 1 then stay_idle fuel k l.current >>= (λ idle. out) else out

-- `case RUNNING`
unfoldable pub tick_running : ℕ → ℕ → Locals → Kernel → Outcome Round
tick_running fuel context l k =
    let p = k.pcb l.current in
    let left = decrement16 p.remaining_quantum in
    let k' = put k l.current (record p { remaining_quantum = left; context = context }) in
    let expired = set_status k' l.current ready in
    if positive16 left
    then stop_at fuel l k'
    else ok (again (advance (record l { switched = true }) expired) expired)

-- `case SLEEPING`
unfoldable pub try_wake : ℕ → Locals → Kernel → Outcome Round
try_wake fuel l k =
    let p = k.pcb l.current in
    if ltb p.wake_time k.uptime
    then stop_at fuel l (put k l.current (record p { wake_time = 0; status = ready }))
    else ok (again (advance l k) k)

-- `case DEAD`
unfoldable pub reap : ℕ → Locals → Kernel → Outcome Round
reap fuel l k = do
  k' ← process_delete fuel l.current k
  ok (
      again
        (record { current = k'.current_process; processes = k'.processes_list; switched = true })
        k')

unfoldable pub dispatch : Status → ℕ → ℕ → Locals → Kernel → Outcome Round
dispatch spawned fuel context l k =
    stop_at fuel (record l { switched = true }) (set_status k l.current ready)
dispatch ready fuel context l k = stop_at fuel (record l { switched = true }) k
dispatch running fuel context l k = tick_running fuel context l k
dispatch sleeping fuel context l k = try_wake fuel l k
dispatch dead fuel context l k = reap fuel l k

-- The body of `while (still_scheduling)`.
unfoldable pub round : ℕ → ℕ → Locals → Kernel → Outcome Round
round fuel context l k =
    if l.processes == 0 then panicked else dispatch (k.pcb l.current).status fuel context l k

-- The loop: the process to run next, whether it was switched to, and the kernel.
unfoldable pub pick : ℕ → ℕ → ℕ → Locals → Kernel → Outcome (ℕ × Bool × Kernel)
pick zero fuel context l k = out_of_fuel
pick (suc rounds) fuel context l k = do
  r ← round fuel context l k
  elim r [
    | leave current switched k' ↦ ok (current, switched, k')
    | again l' k' ↦ pick rounds fuel context l' k'
  ]

-- What follows the loop.
unfoldable pub run_next : ℕ × Bool × Kernel → ℕ × Kernel
run_next (current, switched, k) =
    let k' =
      put (record k { current_process = current }) current
        (record (k.pcb current) { status = running }) in
    let fresh = put k' current (record (k'.pcb current) { remaining_quantum = default_quantum }) in
    if switched then context_switch fresh else ((k'.pcb current).context, k')

-- A NULL current process is replaced by the head of the queue.
abbrev pub first_process : Kernel → ℕ
first_process k = if k.current_process == 0 then k.processes_list else k.current_process

abbrev pub first_locals : Kernel → Locals
first_locals k = record {
  current = first_process k;
  processes = k.processes_list;
  switched = false;
}

abbrev pub started : Kernel → Kernel
started k = record k { current_process = first_process k }

unfoldable pub schedule : ℕ → ℕ → ℕ → Kernel → Outcome (ℕ × Kernel)
schedule rounds fuel context k =
    if k.processes_list == 0
    then panicked
    else pick rounds fuel context (first_locals k) (started k) >>= (λ r. ok (run_next r))

-- `timer_handler`: ten milliseconds more, and a call of the scheduler.
unfoldable pub timer_handler : ℕ → ℕ → ℕ → Kernel → Outcome (ℕ × Kernel)
timer_handler rounds fuel context k =
    schedule rounds fuel context (record k { uptime = u64 (k.uptime + 10) })

-- `process_exit`: the current process is DEAD, and gives the CPU up by interrupt 0x20.
unfoldable pub process_exit : ℕ → ℕ → ℕ → Kernel → Outcome (ℕ × Kernel)
process_exit rounds fuel context k =
    timer_handler rounds fuel context (set_status k k.current_process dead)
