-- ===== src/Format/Plain.antt =====
-- A format string without directives is printed as it is: kernel/lib/print.c.
use mmd_os.Base.{
  ℕ, zero, suc, ◌+◌, ◌-◌, ◌≤◌, ◌<◌, ◌≡◌, ◌≢◌, ◌⊎◌, refl, ap, ap₂, ◌∙◌, arith, if◌then◌else◌, ltb,
  leb, ◌&&◌, lt→ltb, ne→==, eq→==, ◌∷◌, ok,
}
use mmd_os.Memory.{Memory, write, memset, memcpy, bytes}
use mmd_os.Memory.Regions.{memset_lem, memcpy_lem}
use mmd_os.Memory.Bytes.{bytes-agree}
use mmd_os.Format.{Out, format_all, vkprintf, string_at, print_syscall}
use mmd_os.Format.Loop.{at_end, at_plain}

-- `n` characters at `p`, none of them a '%', and a zero behind them.
pub record IsPlain (m : Memory) (p n : ℕ) : Type 0 where
  pub letters : (i : ℕ) → i < n → m (p + i) ≢ 0
  pub no_directive : (i : ℕ) → i < n → m (p + i) ≢ 37
  pub ends : m (p + n) ≡ 0

IsPlain-agree :
    (m m' : Memory) (p p' n : ℕ)
    → ((i : ℕ) → i ≤ n → m' (p' + i) ≡ m (p + i))
    → IsPlain m p n
    → IsPlain m' p' n
IsPlain-agree m m' p p' n same s = record {
  letters = λ i h e. s.letters i h (omega (arith, same i (omega arith), e));
  no_directive = λ i h e. s.no_directive i h (omega (arith, same i (omega arith), e));
  ends = same n (omega arith) ∙ s.ends;
}

module _ (args : ℕ → ℕ) (stack buffer : ℕ) where
  format_all-memcpy :
      (n fuel p : ℕ) (o : Out)
      → IsPlain o.mem p n
      → n < fuel
      → o.offset + n ≤ 1024
      → (buffer + o.offset + n ≤ p) ⊎ (p + n < buffer + o.offset)
      → format_all fuel args stack p buffer o
        ≡ ok (record o { mem = memcpy o.mem (buffer + o.offset) p n; offset = o.offset + n })
  unfolding memcpy
  format_all-memcpy n zero p o s h room apart = absurd (omega arith)
  format_all-memcpy zero (suc fuel) p o s h room apart =
      at_end args stack buffer fuel p o (ap o.mem (omega arith) ∙ s.ends)
      ∙ ap (λ (k : ℕ). ok (record o { offset = k })) {x = o.offset} (omega arith)
  format_all-memcpy (suc n) (suc fuel) p o s h room apart =
      at_plain args stack buffer fuel p o first.0 first.1 (lt→ltb o.offset 1024 (omega arith))
      ∙ format_all-memcpy n fuel (p + 1) next rest (omega arith) (omega arith)
          (ground (arith, apart))
      ∙ ap₂
          (λ (place k : ℕ). ok (record next { mem = memcpy next.mem place (p + 1) n; offset = k }))
          here grown
    where
      here : buffer + (o.offset + 1) ≡ buffer + o.offset + 1
      here = omega arith

      grown : o.offset + 1 + n ≡ o.offset + suc n
      grown = omega arith

      first : (o.mem p ≢ 0) × (o.mem p ≢ 37)
      first =
          let e : o.mem (p + 0) ≡ o.mem p = ap o.mem (omega arith) in
          (λ z. s.letters 0 (omega arith) (e ∙ z), λ z. s.no_directive 0 (omega arith) (e ∙ z))

      next : Out
      next = record o { mem = write o.mem (buffer + o.offset) (o.mem p); offset = o.offset + 1 }

      moved : (i : ℕ) → i ≤ n → next.mem (p + 1 + i) ≡ o.mem (p + suc i)
      moved i l =
          let e : o.mem (p + 1 + i) ≡ o.mem (p + suc i) = ap o.mem (omega arith) in
          ground (arith, apart, e)

      rest : IsPlain next.mem (p + 1) n
      rest = record {
        letters =
            λ i l e. s.letters (suc i) (omega arith) (omega (arith, moved i (omega arith), e));
        no_directive =
            λ i l e. s.no_directive (suc i) (omega arith) (omega (arith, moved i (omega arith), e));
        ends = moved n (omega arith) ∙ s.ends;
      }

-- A string that fits the length is the characters in front of its zero.
string_at-bytes :
    (k n : ℕ) (m : Memory) (p : ℕ)
    → ((i : ℕ) → i < n → m (p + i) ≢ 0)
    → m (p + n) ≡ 0
    → n < k
    → string_at k m p ≡ bytes m p n
unfolding string_at bytes
string_at-bytes zero n m p letters ends h = absurd (omega arith)
string_at-bytes (suc k) zero m p letters ends h =
    rw (eq→== (m p) 0 (ap m (omega arith) ∙ ends)) refl
string_at-bytes (suc k) (suc n) m p letters ends h = rw (ne→== (m p) 0 nonzero) (
    ap (λ cs. m p ∷ cs)
      (string_at-bytes k n m (p + 1)
        (λ i l e. letters (suc i) (omega arith) (ap m (omega arith) ∙ e))
        (ap m (omega arith) ∙ ends) (omega arith)))
  where
    nonzero : m p ≢ 0
    nonzero e = letters 0 (omega arith) (ap m (omega arith) ∙ e)

-- A string of at most 511 characters without a '%', apart from the array of 1024 bytes where
-- `vkprintf` puts together what it prints: `print_syscall` sends it to the terminal as it is, and
-- changes memory in that array only.
pub print_syscall-bytes :
    (args : ℕ → ℕ) (stack buffer str n : ℕ) (m : Memory)
    → IsPlain m str n
    → n ≤ 511
    → (buffer + 1024 ≤ str) ⊎ (str + 512 ≤ buffer)
    → (m' : Memory) × (print_syscall 512 args stack buffer str m ≡ ok (bytes m str n, m'))
      × ((q : ℕ) → (q < buffer) ⊎ (buffer + 1024 ≤ q) → m' q ≡ m q)
unfolding print_syscall vkprintf
print_syscall-bytes args stack buffer str n m s short apart = (
  done,
  rw
      (format_all-memcpy args stack buffer n 512 str start plain (omega arith) (omega arith)
        (ground (arith, apart)))
      (ap (λ cs. ok (cs, done)) sent),
  λ q out. ground (arith, written q, cleared q, out),
)
  where
    start : Out
    start = record { mem = memset m buffer 0 1024; offset = 0; used = 0 }

    done : Memory
    done = memcpy start.mem (buffer + 0) str n

    cleared : (q : ℕ) → start.mem q ≡ (if leb buffer q && ltb q (buffer + 1024) then 0 else m q)
    cleared q = ground (arith, memset_lem m buffer 0 1024 q)

    written :
        (q : ℕ)
        → done q
          ≡ (if leb buffer q && ltb q (buffer + n) then m (str + (q - buffer)) else start.mem q)
    written q =
        ap (λ b. memcpy start.mem b str n q) {y = buffer} (omega arith)
        ∙ ground (
          arith,
          memcpy_lem start.mem buffer str n q (ground (arith, apart)),
          cleared (str + (q - buffer)),
          apart,
        )

    copied : (i : ℕ) → i < n → done (buffer + i) ≡ m (str + i)
    copied i l =
        let e : m (str + (buffer + i - buffer)) ≡ m (str + i) = ap m (omega arith) in
        ground (arith, written (buffer + i), e)

    plain : IsPlain start.mem str n
    plain = IsPlain-agree m start.mem str str n (λ i l. ground (arith, cleared (str + i), apart)) s

    sent : string_at 1024 done buffer ≡ bytes m str n
    sent =
        string_at-bytes 1024 n done buffer (λ i l e. s.letters i l (omega (arith, copied i l, e)))
          (ground (arith, written (buffer + n), cleared (buffer + n))) (omega arith)
        ∙ bytes-agree n m done str buffer copied
