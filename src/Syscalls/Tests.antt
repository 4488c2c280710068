-- ===== src/Syscalls/Tests.antt =====
-- A run of kernel/userland/sys.c with the keyboard at fixed inputs.
use mmd_os.Base.{
  ℕ, ◌≡◌, refl, arith, false, if◌then◌else◌, ◌==◌, Option, none, [], replicate, ok, ◌>>=◌,
}
use mmd_os.Process.{Context}
use mmd_os.Keyboard.{Keyboard}
use mmd_os.Keyboard.Keys.{lower_case}
use mmd_os.Interrupts.Lines.{Machine, Handler, irq_handler, irq_install_handler}
use mmd_os.Syscalls.{Call, Calls, syscall_handler, syscall_init}
use mmd_os.Syscalls.Keys.{keyboard_line, keyboard_call, letter_reaches_rax}

-- The interrupted frame at 0x100 and the caller's at 0x200.
abbrev frame_of : ℕ → Context
frame_of p = record {
  rbp = 0;
  r8 = 0;
  rsi = 0;
  rdi = 5;
  rdx = 0;
  rcx = 0;
  rax = 0;
  int_number = if p == 0x100 then 33 else 128;
  iret_rip = 0;
  iret_cs = 0;
  iret_flags = 0;
  iret_rsp = 0;
  iret_ss = 0;
}

abbrev machine : Machine Keyboard
machine = record {
  frames = frame_of;
  ports = [];
  world = record { buffer = 0; has_char = false; lock = 0; shift = 1; caps_lock = 0 };
}

abbrev idle_call : Call Keyboard
idle_call frame a0 a1 a2 a3 c = ok (0, c)

abbrev calls : Calls Keyboard
calls = record {
  memcpy_call = idle_call;
  open_call = idle_call;
  close_call = idle_call;
  read_call = idle_call;
  print_call = idle_call;
  getch_call = keyboard_call;
  lockstdin_call = idle_call;
  unlockstdin_call = idle_call;
}

abbrev no_handler : ℕ → Option (Handler Keyboard)
no_handler i = none

abbrev no_call : ℕ → Option (Call Keyboard)
no_call i = none

-- The key of `q` with shift down gives 81, the capital.
letter_reaches_rax_example :
    (irq_handler
        (irq_install_handler 1 (keyboard_line 16) (replicate 16 none))
        no_handler
        0x100
        machine
      >>= λ r. syscall_handler (syscall_init calls (replicate 32 none)) no_call 0x200 r.1 >>= λ q.
          ok ((q.1.frames 0x200).rax))
    ≡ ok 81
unfolding lower_case
letter_reaches_rax_example =
    letter_reaches_rax 16 (replicate 16 none) no_handler calls (replicate 32 none) no_call 0x100
      0x200 machine (omega arith) refl refl refl refl refl refl refl
