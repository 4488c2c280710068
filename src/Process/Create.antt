-- ===== src/Process/Create.antt =====
-- `process_create` of kernel/scheduler/process.c: the first frame of a process, its number, its
-- place.
use mmd_os.Base.{
  ℕ, zero, suc, ◌+◌, ◌*◌, ◌≤◌, ◌≡◌, refl, arith, ap, ◌≢◌, ◌∙◌, Outcome, ok, ◌>>=◌, List, [], ◌∷◌,
  ◌++◌, length, u64,
}
use mmd_os.Process.{Pcb, Kernel, Context, spawned, ready, update, put, process_add}
use mmd_os.Process.Queue.{Chain, Chain-update, NotIn}
use mmd_os.Process.Laws.{IsQueue, Added, next_of, process_add_appends}

abbrev pub stack_size : ℕ
stack_size = 64 * 1024

-- What `kalloc` and `vmm_new` returned for the new process.
pub record Blocks : Type 0 where
  pub process : ℕ
  pub context : ℕ
  pub stack : ℕ
  pub space : ℕ

-- At most `n` bytes of a text, as `kstrcpy` copies them.
abbrev pub copy : ℕ → List ℕ → List ℕ
copy zero xs = []
copy (suc n) [] = []
copy (suc n) (x ∷ xs) = x ∷ copy n xs

-- `alloc_stack(KERNEL_MODE)`: the address just past the block.
abbrev pub kernel_stack : Blocks → ℕ
kernel_stack b = u64 (b.stack + stack_size)

abbrev pub first_frame : ℕ → ℕ → ℕ → Blocks → Context → Context
first_frame wrapper function arg b old = record old {
  iret_ss = 0x30;
  iret_rsp = kernel_stack b;
  iret_flags = 0x202;
  iret_cs = 0x28;
  iret_rip = wrapper;
  rdi = function;
  rsi = arg;
  rbp = 0;
}

-- The fields that are set before the PCB is queued. The code does not set `next`: it is what the
-- block holds.
abbrev pub new_pcb : Blocks → List ℕ → Kernel → Pcb
new_pcb b name k = record (k.pcb b.process) {
  context = b.context;
  kstack = kernel_stack b;
  ustack = 0;
  name = copy 64 name;
  pid = k.next_pid;
  status = spawned;
  vmm = b.space;
}

unfoldable pub prepared : ℕ → ℕ → ℕ → Blocks → List ℕ → Kernel → Kernel
prepared wrapper function arg b name k =
    put
      (record k {
        frame = update k.frame b.context (first_frame wrapper function arg b (k.frame b.context));
        next_pid = u64 (k.next_pid + 1);
      })
      b.process (new_pcb b name k)

-- `wrapper` is the address of `process_execution_wrapper`.
unfoldable pub process_create : ℕ → ℕ → ℕ → ℕ → Blocks → List ℕ → Kernel → Outcome (ℕ × Kernel)
process_create fuel wrapper function arg b name k = do
  k' ← process_add fuel b.process (prepared wrapper function arg b name k)
  ok (b.process, k')

-- A frame that enters the code at `wrapper` in kernel mode, with interrupts on, on the stack that
-- ends at `top`, and with the two arguments in the registers that the calling convention has for
-- them.
pub record Enters (wrapper function arg top : ℕ) (c : Context) : Type 0 where
  pub address : c.iret_rip ≡ wrapper
  pub first_argument : c.rdi ≡ function
  pub second_argument : c.rsi ≡ arg
  pub stack_top : c.iret_rsp ≡ top
  pub stack_base : c.rbp ≡ 0
  pub code_segment : c.iret_cs ≡ 40
  pub stack_segment : c.iret_ss ≡ 48
  pub flags : c.iret_flags ≡ 514

pub record Created (wrapper function arg : ℕ) (k : Kernel) (xs : List ℕ) (b : Blocks)
    (o : Outcome (ℕ × Kernel)) : Type 0 where
  pub after : Kernel
  pub result : o ≡ ok (b.process, after)
  pub queue : Chain after.pcb after.processes_list (xs ++ (b.process ∷ []))
  pub status : (after.pcb b.process).status ≡ ready
  pub pid : (after.pcb b.process).pid ≡ k.next_pid
  pub next_pid : after.next_pid ≡ u64 (k.next_pid + 1)
  pub context : (after.pcb b.process).context ≡ b.context
  pub stack : (after.pcb b.process).kstack ≡ u64 (b.stack + 65536)
  pub frame : Enters wrapper function arg (u64 (b.stack + 65536)) (after.frame b.context)
  pub frames : (c : ℕ) → c ≢ b.context → after.frame c ≡ k.frame c
  pub current : after.current_process ≡ k.current_process
  pub others : (p : ℕ) → NotIn p (b.process ∷ []) → (after.pcb p).pid ≡ (k.pcb p).pid

-- With fuel for the members of the queue, and a block outside the queue whose `next` is NULL,
-- `process_create` appends the process to the queue in state READY, under the next process number,
-- with a frame and 64 KiB of stack of its own. The frame enters the wrapper at the top of that stack
-- with the function and its argument; the other frames, the current process and the number of every
-- other process are as before.
pub process_create_appends :
    (fuel wrapper function arg : ℕ) (b : Blocks) (name : List ℕ) (k : Kernel) (xs : List ℕ)
    → length xs ≤ fuel
    → IsQueue k xs
    → b.process ≢ 0
    → next_of k b.process ≡ 0
    → NotIn b.process xs
    → Created wrapper function arg k xs b (process_create fuel wrapper function arg b name k)
unfolding process_create prepared
process_create_appends fuel wrapper function arg b name k xs h q nz fresh n = from added
  where
    k' : Kernel
    k' = prepared wrapper function arg b name k

    added : Added k' xs b.process (process_add fuel b.process k')
    added =
        process_add_appends fuel b.process k' xs h
          (record {
            chain = Chain-update k.pcb b.process (new_pcb b name k) k.processes_list xs n q.chain;
            distinct = q.distinct;
          })
          nz (ground arith) n

    from :
        Added k' xs b.process (process_add fuel b.process k')
        → Created wrapper function arg k xs b
            (process_add fuel b.process k' >>= λ k''. ok (b.process, k''))
    from a = record {
      after = a.after;
      result = rw a.result refl;
      queue = a.queue;
      status = a.status;
      pid = ground (arith, a.kept b.process);
      next_pid = (a.frames).1;
      context = ground (arith, a.kept b.process);
      stack = ground (arith, a.kept b.process);
      frame = rw new_frame (record {
        address = refl;
        first_argument = refl;
        second_argument = refl;
        stack_top = refl;
        stack_base = refl;
        code_segment = refl;
        stack_segment = refl;
        flags = refl;
      });
      frames = λ c ne. ap (λ f. f c) (a.frames).0 ∙ ground (arith, ne);
      current = a.current;
      others = λ p ne. ground (arith, a.kept p);
    }
      where
        new_frame : a.after.frame b.context ≡ first_frame wrapper function arg b (k.frame b.context)
        new_frame = ap (λ f. f b.context) (a.frames).0 ∙ ground arith
