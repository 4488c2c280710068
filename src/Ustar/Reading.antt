-- ===== src/Ustar/Reading.antt =====
-- ustar_read of kernel/fs/ustar.c copies the bytes of a file that are asked for and there.
use mmd_os.Base.{
  ℕ, zero, suc, ◌+◌, ◌-◌, ◌^◌, ◌≤◌, ◌<◌, ◌≡◌, ◌⊎◌, refl, ap, ◌∙◌, arith, if◌then◌else◌, leb, lt→ltb,
  le→ltb, some, u64,
}
use native.Mathlib.Nat.{zero-add}
use mmd_os.Memory.{Memory, write, memcpy}
use mmd_os.Ustar.{Ustar, TarFile, read_bytes, ustar_read}

-- How many of `nbytes` bytes from `offset` on a file of `size` bytes has.
unfoldable pub bytes_there : ℕ → ℕ → ℕ → ℕ
bytes_there nbytes offset size = if leb (offset + nbytes) size then nbytes else (size - offset)

abbrev counted : Memory → ℕ → ℕ × Memory
counted m i = (i, m)

read_bytes-memcpy :
    (left k i b c offset size : ℕ) (m : Memory)
    → i + offset + left < 2 ^ 64
    → k ≤ left
    → i + offset + k ≤ size
    → (k ≡ left) ⊎ (i + offset + k ≡ size)
    → read_bytes left i b c offset size m ≡ (i + k, memcpy m b c k)
unfolding read_bytes memcpy
read_bytes-memcpy zero zero i b c offset size m fits h there why = ap (counted m) (omega arith)
read_bytes-memcpy zero (suc k) i b c offset size m fits h there why = absurd (omega arith)
read_bytes-memcpy (suc left) zero i b c offset size m fits h there why =
    rw (le→ltb (u64 (i + offset)) size (omega arith)) (ap (counted m) (omega arith))
read_bytes-memcpy (suc left) (suc k) i b c offset size m fits h there why =
    rw (lt→ltb (u64 (i + offset)) size (omega arith)) (
      read_bytes-memcpy left k (i + 1) (b + 1) (c + 1) offset size (write m b (m c)) (omega arith)
        (omega arith) (omega arith) (ground (arith, why))
      ∙ ap (counted (memcpy (write m b (m c)) (b + 1) (c + 1) k)) (omega arith))

-- `ustar_read` from a place in an open file, or from its end, returns how many bytes it has of those
-- asked for, and copies so many from there to the buffer, where file offsets fit 64 bits.
pub ustar_read-memcpy :
    (file_id buffer nbytes offset : ℕ) (u : Ustar) (file : TarFile)
    → u.open_files file_id ≡ some file
    → offset ≤ file.size
    → offset + nbytes < 2 ^ 64
    → ustar_read file_id buffer nbytes offset u ≡ (
      bytes_there nbytes offset file.size,
      record u {
        mem =
            memcpy u.mem buffer (file.header + 512 + offset) (bytes_there nbytes offset file.size);
      },
    )
unfolding ustar_read bytes_there
ustar_read-memcpy file_id buffer nbytes offset u file e h fits =
    rw (e, ustar_read) (rw (le→ltb file.size offset (omega arith)) (rw all refl))
  where
    k : ℕ
    k = if leb (offset + nbytes) file.size then nbytes else (file.size - offset)

    all :
        read_bytes nbytes 0 buffer (file.header + 512 + offset) offset file.size u.mem
        ≡ (k, memcpy u.mem buffer (file.header + 512 + offset) k)
    all =
        read_bytes-memcpy nbytes k 0 buffer (file.header + 512 + offset) offset file.size u.mem
          (omega arith) (ground arith) (ground arith) (ground arith)
        ∙ ap (counted (memcpy u.mem buffer (file.header + 512 + offset) k)) (zero-add k)
