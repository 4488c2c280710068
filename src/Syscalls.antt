-- ===== src/Syscalls.antt =====
-- System calls: kernel/userland/sys.c.
mod Tests
pub mod Keys
use mmd_os.Base.{
  ℕ, ◌<◌, if◌then◌else◌, ltb, Option, none, some, List, [], ◌∷◌, length, set, get_or, u8, Outcome,
  ok, panicked, ◌>>=◌,
}
use mmd_os.Process.{Context, update}
use mmd_os.Interrupts.Lines.{Machine, pic_eoi, read_handler}

-- The frame's address and the four arguments.
abbrev pub Call : Type 0 → Type 0
Call S = ℕ → ℕ → ℕ → ℕ → ℕ → Machine S → Outcome (ℕ × Machine S)

-- A call through NULL is a page fault, which panics.
abbrev pub apply_call : {S : Type 0} → Option (Call S) → ℕ → Machine S → Outcome (ℕ × Machine S)
apply_call none frame c = panicked
apply_call (some handler) frame c =
    let regs = c.frames frame in handler frame regs.rsi regs.rdx regs.rcx regs.r8 c

abbrev pub set_rax : {S : Type 0} → ℕ → ℕ → Machine S → Machine S
set_rax frame value c = record c {
  frames = update c.frames frame (record (c.frames frame) { rax = value });
}

unfoldable pub syscall_handler :
    {S : Type 0}
    → List (Option (Call S))
    → (ℕ → Option (Call S))
    → ℕ
    → Machine S
    → Outcome (ℕ × Machine S)
syscall_handler syscall_handlers beyond frame c =
    apply_call (read_handler syscall_handlers beyond (c.frames frame).rdi) frame c >>= λ r.
    ok (frame, pic_eoi 128 (set_rax frame r.0 r.1))

unfoldable pub syscall_install_handler :
    {S : Type 0} → ℕ → Call S → List (Option (Call S)) → List (Option (Call S))
syscall_install_handler offset handler syscall_handlers =
    set syscall_handlers (u8 offset) (some handler)

-- The handlers that `syscall_init` installs.
pub record Calls (S : Type 0) : Type 0 where
  pub memcpy_call : Call S
  pub open_call : Call S
  pub close_call : Call S
  pub read_call : Call S
  pub print_call : Call S
  pub getch_call : Call S
  pub lockstdin_call : Call S
  pub unlockstdin_call : Call S

unfoldable pub syscall_init :
    {S : Type 0} → Calls S → List (Option (Call S)) → List (Option (Call S))
unfolding syscall_install_handler
syscall_init calls t0 =
    let t1 = syscall_install_handler 0 calls.memcpy_call t0 in
    let t2 = syscall_install_handler 1 calls.open_call t1 in
    let t3 = syscall_install_handler 2 calls.close_call t2 in
    let t4 = syscall_install_handler 3 calls.read_call t3 in
    let t5 = syscall_install_handler 4 calls.print_call t4 in
    let t6 = syscall_install_handler 5 calls.getch_call t5 in
    let t7 = syscall_install_handler 6 calls.lockstdin_call t6 in
    syscall_install_handler 7 calls.unlockstdin_call t7
