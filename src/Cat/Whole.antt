-- ===== src/Cat/Whole.antt =====
-- Opening a path and printing it: programs/cat.c over kernel/fs/vfs.c over kernel/fs/ustar.c.
use mmd_os.Base.{ℕ, ◌+◌, ◌*◌, ◌^◌, ◌≤◌, ◌<◌, ◌≡◌, ap, sym, ◌∙◌, arith, List, length, ok}
use mathlib.Core.Path.{subst}
use mmd_os.Memory.{bytes}
use mmd_os.Strings.{kstrcpy}
use mmd_os.Octal.Digits.{octal}
use mmd_os.Ustar.{file_size}
use mmd_os.Ustar.Names.{IsApart}
use mmd_os.Ustar.Files.{IsOpenable}
use mmd_os.Vfs.{Vfs, Mount, set_memory, vfs_open}
use mmd_os.Vfs.Opening.{IsMounted, vfs_open-IsReading}
use mmd_os.Cat.{print_string, print_file}
use mmd_os.Memory.Bytes.{bytes-agree}
use mmd_os.Cat.Prints.{IsText, print_file-printed}

-- Where `vfs_open` opens a header of the archive, as for `vfs_open-IsReading`, and the bytes of its
-- file hold no zero and no '%', and overlap neither the array at `tar` nor the buffer nor the array
-- at `array` of `vkprintf`, which is apart from the buffer, with a size that leaves room for 511
-- more below 2^64, and rounds of fuel for each 511 bytes begun and one more: `vfs_open` returns a
-- descriptor from which the loop of `cat_command` ends, and what it sends to the terminal by system
-- call 4 is the bytes behind the header, as many as its octal size says.
pub print_file-vfs_open :
    (args : ℕ → ℕ) (stack array local tar fuel path n fd id header flags rounds buffer : ℕ)
    (headers : List ℕ) (v : Vfs) (mount : Mount)
    → let v1 = set_memory (kstrcpy v.ustar.mem local mount.mountpoint 512) v in
      let size = octal v1.ustar.mem (file_size header + 1) 10 in
      IsMounted v1 tar fuel path n fd mount
      → IsOpenable tar (path + n) id header headers v1.ustar
      → length headers + 3 ≤ fuel
      → n < fuel
      → size + 511 < 2 ^ 64
      → size + 511 ≤ 511 * rounds
      → IsApart tar 256 (header + 512) size
      → IsApart buffer 512 (header + 512) size
      → IsApart array 1024 buffer 512
      → IsApart array 1024 (header + 512) size
      → ((q : ℕ) → q < size → IsText (v1.ustar.mem (header + 512 + q)))
      → (v' : Vfs) × (v'' : Vfs) × (vfs_open fuel local path flags v ≡ ok (fd, v'))
        × (print_file (print_string args stack array) rounds fd buffer v'
            ≡ ok (bytes v1.ustar.mem (header + 512) size, v''))
print_file-vfs_open args stack array local tar fuel path n fd id header flags rounds buffer headers
      v mount mo o enough more fits all tar_apart buffer_apart array_apart file_apart text =
    let v1 = set_memory (kstrcpy v.ustar.mem local mount.mountpoint 512) v in
    let size = octal v1.ustar.mem (file_size header + 1) 10 in
    let (v', opened, reading, kept) =
      vfs_open-IsReading local tar fuel path n fd id header flags headers v mount mo o enough
        more in
    let there : (q : ℕ)
        → q < size
        → v'.ustar.mem (header + 512 + q) ≡ v1.ustar.mem (header + 512 + q) =
      (λ q h. kept (header + 512 + q) (ground (arith, tar_apart))) in
    let (v'', printed, done) =
      print_file-printed args stack array rounds fd buffer v'
        (record { header = header; references = 1; size = size }) (omega (arith, mo.below)) fits
        buffer_apart array_apart file_apart reading
        (λ q h. subst IsText (sym (there q h)) (text q h)) all in
    let same = bytes-agree size v1.ustar.mem v'.ustar.mem (header + 512) (header + 512) there in
    (v', v'', opened, printed ∙ ap (λ xs. ok (xs, v'')) same)
