-- ===== src/Cat/Prints.antt =====
-- The loop of programs/cat.c goes through the whole file that it opened, and ends.
use mmd_os.Base.{ℕ, ◌+◌, ◌*◌, ◌^◌, ◌≤◌, ◌<◌, ◌≡◌, ◌≢◌, refl, arith, ok}
use mmd_os.Memory.{bytes}
use mmd_os.Ustar.{TarFile}
use mmd_os.Ustar.Names.{IsApart}
use mmd_os.Vfs.{Vfs}
use mmd_os.Vfs.Reading.{IsReading}
use mmd_os.Cat.{hand_over, print_string, print_file}
use mmd_os.Format.Plain.{print_syscall-bytes}
use mmd_os.Cat.Rounds.{Gives, print_file-Gives}

-- With a descriptor below 2^31 at the start of an open file of the archive, a file whose bytes do
-- not overlap the buffer's 512 and whose size leaves room for 511 more below 2^64, and with a round
-- of fuel for each 511 bytes begun and one more, the loop of `cat_command` ends. What it hands over
-- to system call 4, piece by piece, is the bytes of the file, in order and once, and the descriptor
-- is left at the file's end.
pub print_file-bytes :
    (fuel fd buffer : ℕ) (v : Vfs) (file : TarFile)
    → fd < 2 ^ 31
    → file.size + 511 < 2 ^ 64
    → IsApart buffer 512 (file.header + 512) file.size
    → IsReading v fd file 0
    → file.size + 511 ≤ 511 * fuel
    → (left : Vfs) × (print_file hand_over fuel fd buffer v
        ≡ ok (bytes v.ustar.mem (file.header + 512) file.size, left))
      × IsReading left fd file file.size
print_file-bytes fuel fd buffer v file small fits apart r enough =
    print_file-Gives hand_over (λ c. Unit {0}) fd buffer file small fits apart
      (λ n m short ended all. record { after = m; returns = refl; kept = λ q h l. refl }) fuel v r
      (λ q h. tt) enough

-- A character that `kprintf` sends to the terminal as it is.
abbrev pub IsText : ℕ → Type 0
IsText c = (c ≢ 0) × (c ≢ 37)

print_string-Gives :
    (args : ℕ → ℕ) (stack array buffer : ℕ) (file : TarFile)
    → IsApart array 1024 buffer 512
    → IsApart array 1024 (file.header + 512) file.size
    → Gives (print_string args stack array) IsText buffer file
print_string-Gives args stack array buffer file apart file_apart n m short ended text =
    let (after, returns, kept) =
      print_syscall-bytes args stack array buffer n m
        (record { letters = λ i h. (text i h).0; no_directive = λ i h. (text i h).1; ends = ended })
        short apart in
    record { after = after; returns = returns; kept = λ q h l. kept q (ground (arith, file_apart)) }

-- Under the same conditions, for a file without zero bytes and without '%', and with the array of
-- `vkprintf` apart from the buffer and from the file: what the loop prints is the bytes of the file,
-- in order and once.
pub print_file-printed :
    (args : ℕ → ℕ) (stack array fuel fd buffer : ℕ) (v : Vfs) (file : TarFile)
    → fd < 2 ^ 31
    → file.size + 511 < 2 ^ 64
    → IsApart buffer 512 (file.header + 512) file.size
    → IsApart array 1024 buffer 512
    → IsApart array 1024 (file.header + 512) file.size
    → IsReading v fd file 0
    → ((q : ℕ) → q < file.size → IsText (v.ustar.mem (file.header + 512 + q)))
    → file.size + 511 ≤ 511 * fuel
    → (left : Vfs) × (print_file (print_string args stack array) fuel fd buffer v
        ≡ ok (bytes v.ustar.mem (file.header + 512) file.size, left))
      × IsReading left fd file file.size
print_file-printed args stack array fuel fd buffer v file small fits apart a b r text enough =
    print_file-Gives (print_string args stack array) IsText fd buffer file small fits apart
      (print_string-Gives args stack array buffer file a b) fuel v r text enough
