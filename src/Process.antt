-- ===== src/Process.antt =====
-- Process control blocks and their queue: kernel/scheduler/process.h and process.c, with the frame of
-- kernel/cpu/cpu.h. A PCB is named by its address, and the address 0 is NULL.
pub mod Queue
pub mod Laws
pub mod Create
use mmd_os.Base.{
  ℕ, zero, suc, ◌+◌, ◌-◌, ◌*◌, ◌%◌, ◌^◌, ◌<◌, Bool, true, false, if◌then◌else◌, ltb, ◌==◌, ◌!=◌,
  ◌&&◌, List, [], ◌∷◌, Outcome, ok, panicked, spinning, out_of_fuel, ◌>>=◌, u64,
}
use mmd_os.Spinlock.{acquire}

pub data Status : Type 0 where
  spawned ready running sleeping dead : Status

-- The fields of `execution_context` that the kernel reads or writes.
pub record Context : Type 0 where
  pub rbp : ℕ
  pub r8 : ℕ
  pub rsi : ℕ
  pub rdi : ℕ
  pub rdx : ℕ
  pub rcx : ℕ
  pub rax : ℕ
  pub int_number : ℕ
  pub iret_rip : ℕ
  pub iret_cs : ℕ
  pub iret_flags : ℕ
  pub iret_rsp : ℕ
  pub iret_ss : ℕ

-- `process_t`; `remaining_quantum` is the bit pattern of an `int16_t`.
pub record Pcb : Type 0 where
  pub pid : ℕ
  pub status : Status
  pub vmm : ℕ
  pub name : List ℕ
  pub remaining_quantum : ℕ
  pub wake_time : ℕ
  pub next : ℕ
  pub context : ℕ
  pub ustack : ℕ
  pub kstack : ℕ

-- The static variables of process.c and timer.c, the PCBs and frames in memory, what `kfree` was
-- called on, and the registers that a context switch loads.
pub record Kernel : Type 0 where
  pub pcb : ℕ → Pcb
  pub frame : ℕ → Context
  pub processes_list : ℕ
  pub current_process : ℕ
  pub next_pid : ℕ
  pub uptime : ℕ
  pub freed : List ℕ
  pub rsp0 : ℕ
  pub active_vmm : ℕ

abbrev pub update {ℓ} : {A : Type ℓ} → (ℕ → A) → ℕ → A → ℕ → A
update f p v q = if p == q then v else f q

abbrev pub put : Kernel → ℕ → Pcb → Kernel
put k p v = record k { pcb = update k.pcb p v }

abbrev pub set_status : Kernel → ℕ → Status → Kernel
set_status k p st = put k p (record (k.pcb p) { status = st })

abbrev pub set_next : Kernel → ℕ → ℕ → Kernel
set_next k p n = put k p (record (k.pcb p) { next = n })

-- `while (iterator->next != NULL) iterator = iterator->next;`, on fuel: the last PCB of the queue.
pub last_of : ℕ → (ℕ → Pcb) → ℕ → Outcome ℕ
last_of zero pcb iterator = out_of_fuel
last_of (suc fuel) pcb iterator =
    let rest = last_of fuel pcb (pcb iterator).next in
    if (pcb iterator).next == 0 then ok iterator else rest

unfoldable pub process_add : ℕ → ℕ → Kernel → Outcome Kernel
process_add fuel process k =
    let k' = set_status k process ready in
    if k.processes_list == 0
    then ok (record k' { processes_list = process })
    else do last ← last_of fuel k'.pcb k.processes_list; ok (set_next k' last process)

-- `while (scan->next != process) { scan = scan->next; if (scan == NULL) panic(…); }`, on fuel. The
-- loop reads through `scan`, so a NULL there is a page fault, which panics as well.
pub find_before : ℕ → (ℕ → Pcb) → ℕ → ℕ → Outcome ℕ
find_before zero pcb process scan = out_of_fuel
find_before (suc fuel) pcb process scan =
    let rest = find_before fuel pcb process (pcb scan).next in
    if scan == 0 then panicked else if (pcb scan).next == process then ok scan else rest

-- Taking the PCB out of the queue.
unfoldable pub unlink : ℕ → ℕ → Kernel → Outcome Kernel
unlink fuel process k =
    if k.processes_list == process
    then ok (record k { processes_list = (k.pcb process).next })
    else do
      scan ← find_before fuel k.pcb process k.processes_list
      ok (set_next k scan (k.pcb process).next)

-- `current_process` moves on to its successor, or to the head of the queue.
unfoldable pub move_current : Kernel → Outcome Kernel
move_current k =
    if k.current_process == 0
    then panicked
    else ok (record k {
      current_process =
          if (k.pcb k.current_process).next != 0
          then (k.pcb k.current_process).next
          else k.processes_list;
    })

-- The lock is a local variable, free at the call.
unfoldable pub process_delete : ℕ → ℕ → Kernel → Outcome Kernel
process_delete fuel process k = if process == 0 then ok k else do
  l ← acquire 0
  k' ← unlink fuel process k
  k'' ← move_current k'
  ok (record k'' { freed = process ∷ k''.freed })
