-- ===== src/Cat.antt =====
-- The command cat: programs/cat.c.
mod Tests
pub mod Rounds
pub mod Prints
pub mod Whole
use mmd_os.Base.{
  ℕ, zero, suc, ◌+◌, ◌-◌, ◌^◌, Bool, true, false, if◌then◌else◌, ltb, ◌==◌, ◌!=◌, ◌&&◌, List, [],
  ◌∷◌, ◌++◌, u8, u16, Outcome, ok, out_of_fuel, ◌>>=◌,
}
use mmd_os.Memory.{Memory, write, bytes}
use mmd_os.Format.{print_syscall}
use mmd_os.Vfs.{Vfs, set_memory, vfs_read_syscall}

-- The loop that reads a path, over the answers of system call 5 in turn; -1 says that no character is
-- there. The index is an `uint16_t`. What it echoes is left out. The result is the index, the memory
-- and whether a newline ended it.
pub read_path : List ℕ → ℕ → ℕ → Memory → ℕ × Memory × Bool
read_path [] path index m = (index, m, false)
read_path (read_char ∷ more) path index m =
    let skip = read_path more path index m in
    let back = read_path more path (index - 1) (write m (path + (index - 1)) 0) in
    let store = read_path more path (u16 (index + 1)) (write m (path + index) (u8 read_char)) in
    if read_char != 2 ^ 64 - 1
    then if read_char == 10
      then (index, m, true)
      else if read_char == 8 && ltb 0 index
      then back
      else store
    else skip

-- What system call 4 does with the string at an address, in front of whose zero are so many bytes:
-- what becomes of it, and memory.
abbrev pub Call : Type 0
Call = Memory → ℕ → ℕ → Outcome (List ℕ × Memory)

-- The bytes as they were handed over, whatever the call does with them.
abbrev pub hand_over : Call
hand_over m p n = ok (bytes m p n, m)

-- `print_syscall` itself, with fuel for a string of 511 characters.
abbrev pub print_string : (ℕ → ℕ) → ℕ → ℕ → Call
print_string args stack array m p n = print_syscall 512 args stack array p m

-- The `do` loop, on fuel: what becomes of the strings that it gives to system call 4, one after the
-- other.
pub print_file : Call → ℕ → ℕ → ℕ → Vfs → Outcome (List ℕ × Vfs)
print_file call zero id buffer v = out_of_fuel
print_file call (suc fuel) id buffer v = vfs_read_syscall id buffer 511 v >>= λ (read, v1).
    call (write v1.ustar.mem (buffer + read) 0) buffer read >>= λ (printed, m).
    let rest =
      (print_file call fuel id buffer (set_memory m v1) >>= λ (more, v2).
      ok (printed ++ more, v2)) in
    if read != 0 then rest else ok (printed, set_memory m v1)
