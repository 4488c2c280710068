-- ===== src/Cat/Rounds.antt =====
-- The rounds of the loop of programs/cat.c, whatever system call 4 does with a piece.
use mmd_os.Base.{
  ℕ, zero, suc, ◌+◌, ◌-◌, ◌*◌, ◌^◌, ◌≤◌, ◌<◌, ◌≡◌, ◌≢◌, refl, sym, ap, ap₂, ◌∙◌, arith, false,
  if◌then◌else◌, leb, ltb, ◌&&◌, ◌!=◌, ne→!=, ℕ_discrete, List, [], ◌++◌, Outcome, ok, ◌>>=◌,
}
use mathlib.Core.Path.{subst}
use mmd_os.Memory.{Memory, bytes, write, memcpy}
use mmd_os.Memory.Regions.{memcpy_lem}
use mmd_os.Ustar.{TarFile}
use mmd_os.Ustar.Names.{IsApart}
use mmd_os.Ustar.Reading.{bytes_there}
use mmd_os.Vfs.{Vfs, as_int, set_memory, vfs_read}
use mmd_os.Vfs.Reading.{IsReading, Advances, bytes_there_most, vfs_read-Advances}
use mmd_os.Cat.{Call, print_file}
use mmd_os.Memory.Bytes.{bytes-agree, bytes-append}

-- What is left of the file from `pos` on came out, and the descriptor is at its end.
pub record IsPrinted (m : Memory) (fd : ℕ) (file : TarFile) (pos : ℕ) (r : Outcome (List ℕ × Vfs))
    : Type 0 where
  pub left : Vfs
  pub returns : r ≡ ok (bytes m (file.header + 512 + pos) (file.size - pos), left)
  pub reading : IsReading left fd file file.size

-- One round of the loop, with the fuel left a variable.
print_file_from :
    (call : Call) (fuel fd buffer k : ℕ) (v v1 : Vfs) (printed : List ℕ) (m : Memory)
    → fd < 2 ^ 31
    → vfs_read fd buffer 511 v ≡ ok (k, v1)
    → call (write v1.ustar.mem (buffer + k) 0) buffer k ≡ ok (printed, m)
    → print_file call (suc fuel) fd buffer v ≡ (
        if k != 0
        then (print_file call fuel fd buffer (set_memory m v1) >>= λ (more, v2).
            ok (printed ++ more, v2))
        else ok (printed, set_memory m v1))
unfolding print_file
print_file_from call fuel fd buffer k v v1 printed m small e called = rw int (rw e (rw called refl))
  where
    int : as_int fd ≡ fd
    int = ground arith

IsReading_memory :
    (v : Vfs) (fd pos : ℕ) (file : TarFile) (m : Memory)
    → IsReading v fd file pos
    → IsReading (set_memory m v) fd file pos
IsReading_memory v fd pos file m r = record {
  mount = r.mount;
  mounted = r.mounted;
  reads = r.reads;
  in_use = r.in_use;
  opened = r.opened;
  at = r.at;
  inside = r.inside;
}

bytes_there_none : (pos size : ℕ) → pos ≤ size → bytes_there 511 pos size ≡ 0 → pos ≡ size
unfolding bytes_there
bytes_there_none pos size h e = ground (arith, e)

bytes_there_least :
    (pos size fuel : ℕ)
    → pos ≤ size
    → size - pos + 511 ≤ 511 * suc fuel
    → bytes_there 511 pos size ≢ 0
    → size - (pos + bytes_there 511 pos size) + 511 ≤ 511 * fuel
unfolding bytes_there
bytes_there_least pos size fuel h enough k = ground (arith, k)

bytes_none : (n : ℕ) (m : Memory) (p : ℕ) → n ≡ 0 → bytes m p n ≡ []
unfolding bytes
bytes_none n m p z = rw z refl

-- The call gives out the `n` bytes at `p`, and leaves the file's bytes as they are.
pub record GivesOut (file : TarFile) (m : Memory) (p n : ℕ) (r : Outcome (List ℕ × Memory))
    : Type 0 where
  pub after : Memory
  pub returns : r ≡ ok (bytes m p n, after)
  pub kept : (q : ℕ) → file.header + 512 ≤ q → q < file.header + 512 + file.size → after q ≡ m q

-- What a call does with a string of the buffer whose bytes are all of a kind.
abbrev pub Gives : Call → (ℕ → Type 0) → ℕ → TarFile → Type 0
Gives call Kind buffer file =
    (n : ℕ) (m : Memory)
    → n ≤ 511
    → m (buffer + n) ≡ 0
    → ((i : ℕ) → i < n → Kind (m (buffer + i)))
    → GivesOut file m buffer n (call m buffer n)

-- A file's bytes, which do not overlap the buffer with its zero, and are all of a kind.
module _ (call : Call) (Kind : ℕ → Type 0) (fd buffer : ℕ) (file : TarFile) (small : fd < 2 ^ 31)
    (fits : file.size + 511 < 2 ^ 64) (apart : IsApart buffer 512 (file.header + 512) file.size)
    (gives : Gives call Kind buffer file) where
  -- Memory holds the file as `m` does.
  abbrev Holds : Memory → Memory → Type 0
  Holds m m' = (q : ℕ) → file.header + 512 ≤ q → q < file.header + 512 + file.size → m' q ≡ m q

  last_round :
      (fuel pos k : ℕ) (v v1 : Vfs) (m : Memory)
      → vfs_read fd buffer 511 v ≡ ok (k, v1)
      → IsReading v1 fd file (pos + k)
      → k ≡ 0
      → pos ≡ file.size
      → IsPrinted m fd file pos (print_file call (suc fuel) fd buffer v)
  last_round fuel pos k v v1 m e r z ended = record {
    left = set_memory given.after v1;
    returns =
        print_file_from call fuel fd buffer k v v1 (bytes m' buffer k) given.after small e
          given.returns
        ∙ rw stop (
            ap (λ xs. ok (xs, set_memory given.after v1))
              (bytes_none k m' buffer z
                ∙ sym (bytes_none (file.size - pos) m (file.header + 512 + pos) (omega arith))));
    reading =
        subst (λ n. IsReading (set_memory given.after v1) fd file n) whole
          (IsReading_memory v1 fd (pos + k) file given.after r);
  }
    where
      m' : Memory
      m' = write v1.ustar.mem (buffer + k) 0

      given : GivesOut file m' buffer k (call m' buffer k)
      given = gives k m' (omega arith) (ground arith) (λ i h. absurd (omega arith))

      stop : (k != 0) ≡ false
      stop = rw z refl

      whole : pos + k ≡ file.size
      whole = omega arith

  module _ (pos k : ℕ) (v v1 : Vfs) (m : Memory)
      (memory : v1.ustar.mem ≡ memcpy v.ustar.mem buffer (file.header + 512 + pos) k)
      (most : k ≤ 511) (there : pos + k ≤ file.size) (same : Holds m v.ustar.mem)
      (plain : (q : ℕ) → q < file.size → Kind (m (file.header + 512 + q))) where
    -- Memory after a piece was read and its zero was written.
    abbrev ended : Memory
    ended = write v1.ustar.mem (buffer + k) 0

    copied :
        (q : ℕ)
        → v1.ustar.mem q ≡ (
            if leb buffer q && ltb q (buffer + k)
            then v.ustar.mem (file.header + 512 + pos + (q - buffer))
            else v.ustar.mem q)
    copied q =
        ap (λ f. f q) memory
        ∙ memcpy_lem v.ustar.mem buffer (file.header + 512 + pos) k q (ground (arith, apart))

    ended-Holds : Holds m ended
    ended-Holds q h l = ground (arith, copied q, same q h l, apart)

    piece_byte : (i : ℕ) → i < k → ended (buffer + i) ≡ m (file.header + 512 + (pos + i))
    piece_byte i h =
        let e : file.header + 512 + pos + (buffer + i - buffer) ≡ file.header + 512 + (pos + i) =
          omega arith in
        ground (
          arith,
          copied (buffer + i),
          same (file.header + 512 + (pos + i)) (omega arith) (omega arith),
          ap v.ustar.mem e,
        )

    piece : bytes ended buffer k ≡ bytes m (file.header + 512 + pos) k
    piece =
        bytes-agree k m ended (file.header + 512 + pos) buffer
          λ i h. piece_byte i h ∙ ap m (omega arith)

    given : GivesOut file ended buffer k (call ended buffer k)
    given =
        gives k ended most (ground arith)
          λ i h. subst Kind (sym (piece_byte i h)) (plain (pos + i) (omega arith))

    given-Holds : Holds m given.after
    given-Holds q h l = given.kept q h l ∙ ended-Holds q h l

    next_round :
        (fuel : ℕ)
        → vfs_read fd buffer 511 v ≡ ok (k, v1)
        → k ≢ 0
        → IsPrinted m fd file (pos + k) (print_file call fuel fd buffer (set_memory given.after v1))
        → IsPrinted m fd file pos (print_file call (suc fuel) fd buffer v)
    next_round fuel e some_bytes rest = record {
      left = rest.left;
      returns =
          print_file_from call fuel fd buffer k v v1 (bytes ended buffer k) given.after small e
            given.returns
          ∙ rw (ne→!= k 0 some_bytes) (rw rest.returns (ap (λ xs. ok (xs, rest.left)) joined));
      reading = rest.reading;
    }
      where
        behind : file.header + 512 + (pos + k) ≡ file.header + 512 + pos + k
        behind = omega arith

        joined :
            bytes ended buffer k ++ bytes m (file.header + 512 + (pos + k)) (file.size - (pos + k))
            ≡ bytes m (file.header + 512 + pos) (file.size - pos)
        joined =
            ap₂ (λ xs q. xs ++ bytes m q (file.size - (pos + k))) piece behind
            ∙ sym (bytes-append k (file.size - (pos + k)) m (file.header + 512 + pos))
            ∙ ap (bytes m (file.header + 512 + pos)) (omega arith)

  print_file-IsPrinted :
      (fuel pos : ℕ) (v : Vfs) (m : Memory)
      → IsReading v fd file pos
      → Holds m v.ustar.mem
      → ((q : ℕ) → q < file.size → Kind (m (file.header + 512 + q)))
      → file.size - pos + 511 ≤ 511 * fuel
      → IsPrinted m fd file pos (print_file call fuel fd buffer v)
  print_file-IsPrinted zero pos v m r same plain enough = absurd (omega arith)
  print_file-IsPrinted (suc fuel) pos v m r same plain enough = elim (ℕ_discrete k 0) [
    | yes z ↦
        last_round fuel pos k v step.left m step.returns step.reading z
          (bytes_there_none pos file.size r.inside z)
    | no some_bytes ↦
        next_round pos k v step.left m step.memory (bytes_there_most 511 pos file.size)
          step.reading.inside same plain fuel step.returns some_bytes
          (print_file-IsPrinted fuel (pos + k) (set_memory memory step.left) m
            (IsReading_memory step.left fd (pos + k) file memory step.reading)
            (given-Holds pos k v step.left m step.memory (bytes_there_most 511 pos file.size)
              step.reading.inside same plain)
            plain (bytes_there_least pos file.size fuel r.inside enough some_bytes))
  ]
    where
      k : ℕ
      k = bytes_there 511 pos file.size

      step : Advances v fd buffer 511 file pos k
      step = vfs_read-Advances fd buffer 511 pos v file r (omega (arith, fits, r.inside))

      memory : Memory
      memory =
          (given pos k v step.left m step.memory (bytes_there_most 511 pos file.size)
            step.reading.inside same plain).after

  pub print_file-Gives :
      (fuel : ℕ) (v : Vfs)
      → IsReading v fd file 0
      → ((q : ℕ) → q < file.size → Kind (v.ustar.mem (file.header + 512 + q)))
      → file.size + 511 ≤ 511 * fuel
      → (left : Vfs) × (print_file call fuel fd buffer v
          ≡ ok (bytes v.ustar.mem (file.header + 512) file.size, left))
        × IsReading left fd file file.size
  print_file-Gives fuel v r plain enough =
      let done = print_file-IsPrinted fuel 0 v v.ustar.mem r (λ q h k. refl) plain (omega arith) in
      let place : file.header + 512 + 0 ≡ file.header + 512 = omega arith in
      let all : file.size - 0 ≡ file.size = omega arith in
      (
        done.left,
        done.returns ∙ ap₂ (λ p n. ok (bytes v.ustar.mem p n, done.left)) place all,
        done.reading,
      )
