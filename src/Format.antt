-- ===== src/Format.antt =====
-- Formatted output: kernel/lib/formatter.c, and the loop over a format string that
-- kernel/lib/print.c, kernel/lib/logger.c and kernel/lib/panic.c share. Buffers lie in byte memory,
-- so that a write past the end of one is seen.
mod Tests
pub mod Decimal
pub mod Bounds
pub mod Loop
pub mod Plain
use mmd_os.Base.{
  ℕ, zero, suc, ◌+◌, ◌-◌, ◌*◌, ◌/◌, ◌%◌, ◌^◌, Bool, true, false, if◌then◌else◌, ltb, leb, ◌==◌,
  ◌!=◌, ◌||◌, ◌&&◌, List, [], ◌∷◌, ◌++◌, get_or, u8, u32, Outcome, ok, out_of_fuel, ◌>>=◌,
}
use mmd_os.Memory.{Memory, write, memset}

abbrev pub max_string : ℕ
max_string = 1024

abbrev pub max_hex : ℕ
max_hex = 64

-- The memory with the buffer's offset, and how many variable arguments were read.
pub record Out : Type 0 where
  pub mem : Memory
  pub offset : ℕ
  pub used : ℕ

-- `if (buffer_offset < MAX_STRING_FORMATTER_BUFFER_SIZE) { buffer[buffer_offset] = c;
-- buffer_offset++; }`
abbrev pub put : ℕ → ℕ → Out → Out
put buffer c o =
    if ltb o.offset max_string
    then record o { mem = write o.mem (buffer + o.offset) (u8 c); offset = o.offset + 1 }
    else o

unfoldable pub format_char : ℕ → ℕ → Out → Out
format_char c buffer o = put buffer c o

-- `while (*s && buffer_offset < MAX_STRING_FORMATTER_BUFFER_SIZE)`, by the room left in the buffer.
pub copy_string : ℕ → ℕ → ℕ → Out → Out
copy_string zero s buffer o = o
copy_string (suc room) s buffer o =
    let rest =
      copy_string room (s + 1) buffer
        (record o { mem = write o.mem (buffer + o.offset) (o.mem s); offset = o.offset + 1 }) in
    if o.mem s == 0 then o else rest

unfoldable pub format_string : ℕ → ℕ → Out → Out
format_string s buffer o = copy_string (max_string - o.offset) s buffer o

-- `while (remainder != 0) { len++; remainder /= 10; }`, on fuel.
pub count_digits : ℕ → ℕ → Outcome ℕ
count_digits zero remainder = out_of_fuel
count_digits (suc fuel) remainder =
    let rest = count_digits fuel (remainder / 10) in
    if remainder == 0 then ok 0 else (rest >>= λ len. ok (suc len))

-- The array `number` of `len` characters, the lowest digit first; `char_of` makes a character.
pub low_digits : (ℕ → ℕ) → ℕ → ℕ → List ℕ
low_digits char_of zero uint = []
low_digits char_of (suc len) uint = char_of (uint % 10) ∷ low_digits char_of len (uint / 10)

-- The loop from `len - 1` down to 0; when the buffer is full nothing more is written, as by its
-- `break`.
pub put_backwards : ℕ → List ℕ → Out → Out
put_backwards buffer [] o = o
put_backwards buffer (c ∷ number) o = put buffer c (put_backwards buffer number o)

-- A 64-bit number has at most 20 digits; the last round of the count finds 0.
abbrev pub format_digits : (ℕ → ℕ) → ℕ → ℕ → Out → Outcome Out
format_digits char_of uint buffer o =
    count_digits 21 uint >>= λ len. ok (put_backwards buffer (low_digits char_of len uint) o)

unfoldable pub format_uint : ℕ → ℕ → Out → Outcome Out
format_uint uint buffer o =
    if uint == 0 then ok (put buffer 48 o) else format_digits (λ d. d + 48) uint buffer o

-- `integer` is the bit pattern of an `int64_t`: `%` and `/` of C go towards 0, so a negative number
-- has the digits of its absolute value, each below 0.
unfoldable pub format_int : ℕ → ℕ → Out → Outcome Out
format_int integer buffer o =
    if integer == 0
    then ok (put buffer 48 o)
    else if leb (2 ^ 63) integer
    then format_digits (λ d. 48 - d) (2 ^ 64 - integer) buffer o
    else format_digits (λ d. d + 48) integer buffer o

abbrev pub hex_char : ℕ → ℕ
hex_char d = if ltb d 10 then d + 48 else d + 87

-- The first loop of `int_to_hex`: the digits, lowest first, from index `i` on.
pub hex_digits : ℕ → ℕ → ℕ → ℕ → Memory → ℕ × Memory
hex_digits zero num i buffer m = (i, m)
hex_digits (suc rounds) num i buffer m =
    let rest =
      hex_digits rounds (num / 16) (i + 1) buffer (write m (buffer + i) (hex_char (num % 16))) in
    if num == 0 then (i, m) else rest

-- The second loop: `k` and `j` close in on each other, and the bytes at them change places.
pub swap_ends : ℕ → ℕ → ℕ → ℕ → Memory → Memory
swap_ends zero k j buffer m = m
swap_ends (suc rounds) k j buffer m =
    let rest =
      swap_ends rounds (k + 1) (j - 1) buffer
        (write (write m (buffer + k) (m (buffer + j))) (buffer + j) (m (buffer + k))) in
    if ltb k j then rest else m

unfoldable pub int_to_hex : ℕ → ℕ → Memory → Memory
int_to_hex i buffer m =
    if i == 0
    then write m buffer 48
    else let (index, m') = hex_digits max_hex i 0 buffer m in
      swap_ends max_hex 0 (u32 (index - 1)) buffer m'

-- The local array `hex_string` lies at `stack`.
unfoldable pub format_hex : ℕ → ℕ → ℕ → Out → Out
format_hex stack hex_int buffer o =
    format_string stack buffer
      (record o { mem = int_to_hex hex_int stack (memset o.mem stack 0 max_hex) })

-- `va_arg(args, …)`: the arguments as a sequence of 64-bit words.
abbrev pub next_arg : Out → Out
next_arg o = record o { used = o.used + 1 }

unfoldable pub put_hex : (ℕ → ℕ) → ℕ → ℕ → Out → Outcome Out
put_hex args stack buffer o =
    if ltb (o.offset + 2) max_string
    then ok (
        format_hex stack (args o.used) buffer (
          next_arg (record o {
            mem = write (write o.mem (buffer + o.offset) 48) (buffer + (o.offset + 1)) 120;
            offset = o.offset + 2;
          })))
    else ok o

-- The cases of the `switch` that do something; every other directive prints nothing.
unfoldable pub format_handler : (ℕ → ℕ) → ℕ → ℕ → ℕ → Out → Outcome Out
format_handler args stack format buffer o =
    if format == 100 || format == 105
    then format_int (args o.used) buffer (next_arg o)
    else if format == 117
    then format_uint (args o.used) buffer (next_arg o)
    else if format == 88 || format == 112 || format == 120
    then put_hex args stack buffer o
    else if format == 99
    then ok (format_char (args o.used) buffer (next_arg o))
    else if format == 115
    then ok (format_string (args o.used) buffer (next_arg o))
    else ok o

-- The loop over the format string, on fuel.
pub format_all : ℕ → (ℕ → ℕ) → ℕ → ℕ → ℕ → Out → Outcome Out
format_all zero args stack fmt buffer o = out_of_fuel
format_all (suc fuel) args stack fmt buffer o =
    let directive =
      (format_handler args stack (o.mem (fmt + 1)) buffer o >>= λ o'.
      format_all fuel args stack (fmt + 2) buffer o') in
    let plain =
      format_all fuel args stack (fmt + 1) buffer
        (record o { mem = write o.mem (buffer + o.offset) (o.mem fmt); offset = o.offset + 1 }) in
    if o.mem fmt != 0 && ltb o.offset max_string
    then (if o.mem fmt == 37 then directive else plain)
    else ok o

-- `vkprintf` up to its call of `limine_write(buffer)`, whose argument is the buffer of the result.
unfoldable pub vkprintf : ℕ → (ℕ → ℕ) → ℕ → ℕ → ℕ → Memory → Outcome Out
vkprintf fuel args stack fmt buffer m =
    format_all fuel args stack fmt buffer
      (record { mem = memset m buffer 0 max_string; offset = 0; used = 0 })

-- The characters that `limine_write` sends: those in front of the first zero, among `n`.
pub string_at : ℕ → Memory → ℕ → List ℕ
string_at zero m str = []
string_at (suc n) m str =
    let rest = string_at n m (str + 1) in if m str == 0 then [] else m str ∷ rest

-- `print_syscall`, which has `kprintf` take the string for a format: what is sent to the terminal,
-- and memory. `kprintf` was given no arguments: `args` is what its `va_arg` finds. The local arrays
-- of `vkprintf` and `format_hex` lie at `buffer` and `stack`.
pub print_syscall : ℕ → (ℕ → ℕ) → ℕ → ℕ → ℕ → Memory → Outcome (List ℕ × Memory)
print_syscall fuel args stack buffer str m =
    vkprintf fuel args stack str buffer m >>= λ o. ok (string_at max_string o.mem buffer, o.mem)
