-- ===== src/Scheduler/Tests.antt =====
-- A queue of three processes: runs of the process queue and the scheduler, and the theorems at them.
use mmd_os.Base.{ℕ, ◌+◌, ◌≡◌, refl, arith, ok, ◌>>=◌, List, [], ◌∷◌, if◌then◌else◌, ◌==◌, inl, inr}
use mmd_os.Process.{
  Status, ready, running, sleeping, dead, Context, Pcb, Kernel, process_add, process_delete,
}
use mmd_os.Process.Laws.{IsQueue, Added, process_add_appends, Deleted, process_delete_removes}
use mmd_os.Process.Create.{Blocks, Created, process_create, process_create_appends}
use mmd_os.Scheduler.{
  schedule, pick, round, dispatch, tick_running, try_wake, stop_at, stay_idle, all_asleep, run_next,
  context_switch,
}
use mmd_os.Scheduler.Step.{expired, ticked}
use mmd_os.Scheduler.Result.{Resumes, schedule-Resumes, Switched}
use mmd_os.Scheduler.Rotate.{schedule_rotates, schedule_keeps}

abbrev blank_frame : Context
blank_frame = record {
  rbp = 0;
  r8 = 0;
  rsi = 0;
  rdi = 0;
  rdx = 0;
  rcx = 0;
  rax = 0;
  int_number = 0;
  iret_rip = 0;
  iret_cs = 0;
  iret_flags = 0;
  iret_rsp = 0;
  iret_ss = 0;
}

abbrev a_process : ℕ → Status → ℕ → ℕ → Pcb
a_process pid st quantum next = record {
  pid = pid;
  status = st;
  vmm = pid + 1000;
  name = [];
  remaining_quantum = quantum;
  wake_time = 500;
  next = next;
  context = pid + 2000;
  ustack = 0;
  kstack = pid + 3000;
}

-- The idle process runs; the second sleeps until 500; the third is ready.
abbrev three : ℕ → Kernel
three quantum = record {
  pcb = λ p.
      if p == 100
      then a_process 1 running quantum 200
      else if p == 200
      then a_process 2 sleeping 0 300
      else if p == 300
      then a_process 3 ready 0 0
      else a_process 0 dead 0 0;
  frame = λ _. blank_frame;
  processes_list = 100;
  current_process = 100;
  next_pid = 4;
  uptime = 70;
  freed = [];
  rsp0 = 0;
  active_vmm = 0;
}

abbrev addresses : List ℕ
addresses = 100 ∷ 200 ∷ 300 ∷ []

three-IsQueue : (quantum : ℕ) → IsQueue (three quantum) addresses
three-IsQueue quantum = record { chain = omega arith; distinct = omega arith }

-- The sleeper is passed over, and the third process runs.
schedule_run :
    ◌>>=◌ {B = ℕ × ℕ} (schedule 9 9 77 (three 1)) (λ r. ok (r.0, (r.1).current_process))
    ≡ ok (2003, 300)
unfolding schedule pick round dispatch tick_running try_wake stop_at stay_idle all_asleep run_next
    context_switch
schedule_run = refl

schedule_rotates_example : Switched (expired 77 (three 1) 100) 300 (schedule 9 9 77 (three 1))
schedule_rotates_example =
    schedule_rotates 9 9 77 (three 1) [] (200 ∷ 300 ∷ []) 100 (three-IsQueue 1) refl refl
      (omega arith) (omega arith) 300 refl (inr ((refl, omega arith), inl (inr refl, refl)))

schedule_keeps_example : schedule 9 9 77 (three 3) ≡ ok (77, ticked 77 (three 3) 100)
schedule_keeps_example =
    schedule_keeps 9 9 77 (three 3) [] (200 ∷ 300 ∷ []) 100 (three-IsQueue 3) refl refl
      (omega arith) (omega arith) refl

schedule-Resumes_example : Resumes (ticked 77 (three 3) 100) 77
schedule-Resumes_example = schedule-Resumes 9 9 77 (three 3) schedule_keeps_example

process_add_appends_example : Added (three 1) addresses 400 (process_add 9 400 (three 1))
process_add_appends_example =
    process_add_appends 9 400 (three 1) addresses (omega arith) (three-IsQueue 1) (omega arith) refl
      (omega arith)

process_delete_removes_example : Deleted (three 1) addresses 200 (process_delete 9 200 (three 1))
process_delete_removes_example =
    process_delete_removes 9 200 (three 1) addresses (omega arith) (three-IsQueue 1)
      (inr (inl refl)) (inl refl)

abbrev blocks : Blocks
blocks = record { process = 400; context = 500; stack = 4096; space = 600 }

process_create_appends_example :
    Created 11 12 13 (three 1) addresses blocks (process_create 9 11 12 13 blocks [] (three 1))
process_create_appends_example =
    process_create_appends 9 11 12 13 blocks [] (three 1) addresses (omega arith) (three-IsQueue 1)
      (omega arith) refl (omega arith)
