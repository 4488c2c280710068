-- ===== src/Format/Loop.antt =====
-- The loop over a format string (kernel/lib/print.c, logger.c, panic.c): it ends, and it keeps to
-- its buffer.
use mmd_os.Base.{
  ℕ, zero, suc, ◌+◌, ◌*◌, ◌^◌, ◌≤◌, ◌<◌, ◌≡◌, ◌≢◌, inl, inr, refl, ◌∙◌, arith, true, false, ltb,
  Bool-cases, ltb→lt, eq→==, ne→==, ne→!=, Outcome, ok, ◌>>=◌,
}
use mmd_os.Memory.{Memory, write, memset}
use mmd_os.Memory.Regions.{memset_lem}
use mmd_os.Format.{Out, format_handler, format_all, vkprintf}
use mmd_os.Format.Bounds.{
  IsOutside, IsKept, IsKept_refl, IsKept_trans, Returns, format_handler-Returns, write_outside,
}

-- A format string at `p` that the loop reads in `n` rounds: a byte, or a `%` and the byte after it,
-- and at the end a zero, so that no `%` stands right before the end.
pub data IsFormat (m : Memory) : ℕ → ℕ → Type 0 where
  end : {p : ℕ} → m p ≡ 0 → IsFormat m p 0
  plain : {p n : ℕ} → m p ≢ 0 → m p ≢ 37 → IsFormat m (p + 1) n → IsFormat m p (suc n)
  directive : {p n : ℕ} → m p ≡ 37 → m (p + 1) ≢ 0 → IsFormat m (p + 2) n → IsFormat m p (suc n)

module _ (args : ℕ → ℕ) (stack buffer : ℕ) where
  -- One round of the loop, with the fuel left a variable.
  pub at_end :
      (fuel p : ℕ) (o : Out) → o.mem p ≡ 0 → format_all (suc fuel) args stack p buffer o ≡ ok o
  unfolding format_all
  at_end fuel p o e = rw e refl

  when_full :
      (fuel p : ℕ) (o : Out)
      → o.mem p ≢ 0
      → ltb o.offset 1024 ≡ false
      → format_all (suc fuel) args stack p buffer o ≡ ok o
  unfolding format_all
  when_full fuel p o k full = rw (ne→!= (o.mem p) 0 k) (rw full refl)

  pub at_plain :
      (fuel p : ℕ) (o : Out)
      → o.mem p ≢ 0
      → o.mem p ≢ 37
      → ltb o.offset 1024 ≡ true
      → format_all (suc fuel) args stack p buffer o
        ≡ format_all fuel args stack
            (p + 1)
            buffer
            (record o { mem = write o.mem (buffer + o.offset) (o.mem p); offset = o.offset + 1 })
  unfolding format_all
  at_plain fuel p o k l room = rw (ne→!= (o.mem p) 0 k) (rw room (rw (ne→== (o.mem p) 37 l) refl))

  at_directive :
      (fuel p : ℕ) (o : Out)
      → o.mem p ≡ 37
      → ltb o.offset 1024 ≡ true
      → format_all (suc fuel) args stack p buffer o ≡ (
          format_handler args stack (o.mem (p + 1)) buffer o >>= λ o'.
          format_all fuel args stack (p + 2) buffer o')
  unfolding format_all
  at_directive fuel p o e room =
      rw (ne→!= (o.mem p) 0 (omega (arith, e))) (rw room (rw (eq→== (o.mem p) 37 e) refl))

module _ (args : ℕ → ℕ) (stack fmt buffer : ℕ) (words : (i : ℕ) → args i < 2 ^ 64) where
  -- What an operation that keeps to its places leaves, read through the memory at the start.
  still :
      (m : Memory) (o o' : Out)
      → ((q : ℕ) → IsOutside buffer stack q → o.mem q ≡ m q)
      → IsKept buffer stack o o'
      → (q : ℕ) → IsOutside buffer stack q
      → o'.mem q ≡ m q
  still m o o' same k q out = k.others q out ∙ same q out

  written :
      (p : ℕ) (o : Out)
      → o.offset < 1024
      → IsKept buffer stack o
          (record o { mem = write o.mem (buffer + o.offset) (o.mem p); offset = o.offset + 1 })
  written p o h = record {
    grows = omega arith;
    within = omega arith;
    others = λ q out.
        write_outside buffer stack o.mem (buffer + o.offset) (o.mem p) q out (omega arith)
          (omega arith);
  }

  after_kept :
      (o o' : Out) {r : Outcome Out}
      → IsKept buffer stack o o'
      → Returns buffer stack o' r
      → Returns buffer stack o r
  after_kept o o' k r = record {
    after = r.after;
    returns = r.returns;
    kept = IsKept_trans buffer stack k r.kept;
  }

  format_all-Returns :
      (n p : ℕ) (m : Memory) (o : Out)
      → IsFormat m p n
      → ((q : ℕ) → p ≤ q → q ≤ p + 2 * n → IsOutside buffer stack q)
      → ((q : ℕ) → IsOutside buffer stack q → o.mem q ≡ m q)
      → o.offset ≤ 1024
      → Returns buffer stack o (format_all (suc n) args stack p buffer o)
  format_all-Returns zero p m o (end e) apart same h =
      rw (at_end args stack buffer 0 p o (same p (apart p (omega arith) (omega arith)) ∙ e))
        (record { after = o; returns = refl; kept = IsKept_refl buffer stack o h })
  format_all-Returns (suc n) p m o (plain k l f) apart same h =
      let here : o.mem p ≡ m p = same p (apart p (omega arith) (omega arith)) in
      elim (Bool-cases (ltb o.offset 1024)) [
        | inr full ↦
            rw (when_full args stack buffer (suc n) p o (omega (arith, here, k)) full)
              (record { after = o; returns = refl; kept = IsKept_refl buffer stack o h })
        | inl room ↦
            let o' : Out = record o {
              mem = write o.mem (buffer + o.offset) (o.mem p);
              offset = o.offset + 1;
            } in
            let k' : IsKept buffer stack o o' = written p o (ltb→lt o.offset 1024 room) in
            rw
              (at_plain args stack buffer (suc n) p o (omega (arith, here, k))
                (omega (arith, here, l)) room)
              (after_kept o o' k' (
                format_all-Returns n (p + 1) m o' f (λ q a b. apart q (omega arith) (omega arith))
                  (still m o o' same k') k'.within))
      ]
  format_all-Returns (suc n) p m o (directive e k f) apart same h =
      let here : o.mem p ≡ m p = same p (apart p (omega arith) (omega arith)) in
      elim (Bool-cases (ltb o.offset 1024)) [
        | inr full ↦
            rw (when_full args stack buffer (suc n) p o (omega (arith, here, e)) full)
              (record { after = o; returns = refl; kept = IsKept_refl buffer stack o h })
        | inl room ↦
            let r : Returns buffer stack o (format_handler args stack (o.mem (p + 1)) buffer o) =
              format_handler-Returns buffer stack args (o.mem (p + 1)) o words h in
            rw (at_directive args stack buffer (suc n) p o (here ∙ e) room) (
              rw r.returns (
                after_kept o r.after r.kept (
                  format_all-Returns n (p + 2) m r.after f
                    (λ q a b. apart q (omega arith) (omega arith)) (still m o r.after same r.kept)
                    r.kept.within)))
      ]

  -- With 64-bit arguments, a format string that ends, with no lone `%` before its end, and that lies
  -- apart from the buffer and from the local string of hexadecimal digits, and with one round of
  -- fuel for each of its `n` characters and directives and one more, `vkprintf` returns. Its offset
  -- is then at most 1024, and outside the buffer's 1024 bytes and the 64 of the hexadecimal string
  -- every byte of memory is as it was.
  pub vkprintf_bounds :
      (n : ℕ) (m : Memory)
      → IsFormat m fmt n
      → ((q : ℕ) → fmt ≤ q → q ≤ fmt + 2 * n → IsOutside buffer stack q)
      → (o : Out) × (vkprintf (suc n) args stack fmt buffer m ≡ ok o)
        × (o.offset ≤ 1024)
        × ((q : ℕ) → IsOutside buffer stack q → o.mem q ≡ m q)
  unfolding vkprintf
  vkprintf_bounds n m f apart =
      (r.after, r.returns, r.kept.within, λ q out. r.kept.others q out ∙ cleared q out)
    where
      cleared : (q : ℕ) → IsOutside buffer stack q → memset m buffer 0 1024 q ≡ m q
      cleared q out = ground (arith, memset_lem m buffer 0 1024 q, out)

      first : Out
      first = record { mem = memset m buffer 0 1024; offset = 0; used = 0 }

      r : Returns buffer stack first (format_all (suc n) args stack fmt buffer first)
      r = format_all-Returns n fmt m first f apart cleared (omega arith)
