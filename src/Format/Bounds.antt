-- ===== src/Format/Bounds.antt =====
-- The functions of kernel/lib/formatter.c write to the buffer and to the local hexadecimal string
-- only, and never past the buffer's 1024 bytes.
use mmd_os.Base.{
  ℕ, zero, suc, ◌+◌, ◌-◌, ◌/◌, ◌%◌, ◌^◌, ◌≤◌, ◌<◌, ◌≡◌, ◌⊎◌, inl, inr, refl, ◌∙◌, arith, ltb, leb,
  ◌==◌, ◌||◌, Bool-cases, ltb→lt, List, [], ◌∷◌, u8, u32, Outcome, ok,
}
use mmd_os.Memory.{Memory, write, memset}
use mmd_os.Memory.Regions.{memset_lem}
use mmd_os.Format.Decimal.{count_digits_lem}
use mmd_os.Format.{
  Out, max_string, put, format_char, copy_string, format_string, low_digits, put_backwards,
  format_digits, format_uint, format_int, hex_digits, hex_char, swap_ends, int_to_hex, format_hex,
  next_arg, put_hex, format_handler,
}

-- An address of neither the buffer nor the hexadecimal string.
abbrev pub IsOutside : ℕ → ℕ → ℕ → Type 0
IsOutside buffer stack q = ((q < buffer) ⊎ (buffer + 1024 ≤ q)) × ((q < stack) ⊎ (stack + 64 ≤ q))

module _ (buffer stack : ℕ) where
  -- From `o` to `o'` the offset grew, within the buffer, and all else of memory stayed.
  pub record IsKept (o o' : Out) : Type 0 where
    pub grows : o.offset ≤ o'.offset
    pub within : o'.offset ≤ 1024
    pub others : (q : ℕ) → IsOutside buffer stack q → o'.mem q ≡ o.mem q

  pub IsKept_refl : (o : Out) → o.offset ≤ 1024 → IsKept o o
  IsKept_refl o h = record { grows = omega arith; within = h; others = λ q out. refl }

  pub IsKept_trans : {o o' o'' : Out} → IsKept o o' → IsKept o' o'' → IsKept o o''
  IsKept_trans k l = record {
    grows = omega (arith, k.grows, l.grows);
    within = l.within;
    others = λ q out. l.others q out ∙ k.others q out;
  }

  pub write_outside :
      (m : Memory) (p v q : ℕ)
      → IsOutside buffer stack q
      → buffer ≤ p
      → p < buffer + 1024
      → write m p v q ≡ m q
  write_outside m p v q out h k = ground (arith, out)

  pub put-IsKept : (c : ℕ) (o : Out) → o.offset ≤ 1024 → IsKept o (put buffer c o)
  put-IsKept c o h = elim (Bool-cases (ltb o.offset max_string)) [
    | inl room ↦ rw room (record {
      grows = omega arith;
      within = ground (arith, ltb→lt o.offset 1024 room);
      others = λ q out.
          write_outside o.mem (buffer + o.offset) (u8 c) q out (omega arith)
            (omega (arith, ltb→lt o.offset 1024 room));
    })
    | inr full ↦ rw full (IsKept_refl o h)
  ]

  copy_string-IsKept :
      (room s : ℕ) (o : Out) → o.offset + room ≤ 1024 → IsKept o (copy_string room s buffer o)
  unfolding copy_string
  copy_string-IsKept zero s o h = IsKept_refl o (omega arith)
  copy_string-IsKept (suc room) s o h = elim (Bool-cases (o.mem s == 0)) [
    | inl done ↦ rw done (IsKept_refl o (omega arith))
    | inr more ↦ rw more (
        IsKept_trans
          (record {
            grows = omega arith;
            within = omega arith;
            others = λ q out.
                write_outside o.mem (buffer + o.offset) (o.mem s) q out (omega arith) (omega arith);
          })
          (copy_string-IsKept room (s + 1)
            (record o { mem = write o.mem (buffer + o.offset) (o.mem s); offset = o.offset + 1 })
            (omega arith)))
  ]

  pub format_string-IsKept :
      (s : ℕ) (o : Out) → o.offset ≤ 1024 → IsKept o (format_string s buffer o)
  unfolding format_string
  format_string-IsKept s o h = copy_string-IsKept (1024 - o.offset) s o (omega arith)

  put_backwards-IsKept :
      (number : List ℕ) (o : Out) → o.offset ≤ 1024 → IsKept o (put_backwards buffer number o)
  unfolding put_backwards
  put_backwards-IsKept [] o h = IsKept_refl o h
  put_backwards-IsKept (c ∷ number) o h =
      let rest : IsKept o (put_backwards buffer number o) = put_backwards-IsKept number o h in
      IsKept_trans rest (put-IsKept c (put_backwards buffer number o) rest.within)

  -- What returns has kept.
  pub record Returns (o : Out) (r : Outcome Out) : Type 0 where
    pub after : Out
    pub returns : r ≡ ok after
    pub kept : IsKept o after

  at_once : (o o' : Out) → IsKept o o' → Returns o (ok o')
  at_once o o' k = record { after = o'; returns = refl; kept = k }

  -- Of the hexadecimal string: only its 64 bytes change.
  abbrev Stays : Memory → Memory → Type 0
  Stays m m' = (q : ℕ) → IsOutside buffer stack q → m' q ≡ m q

  write_stack :
      (m : Memory) (p v q : ℕ)
      → IsOutside buffer stack q
      → stack ≤ p
      → p < stack + 64
      → write m p v q ≡ m q
  write_stack m p v q out h k = ground (arith, out)

  hex_digits_lem :
      (rounds num i : ℕ) (m : Memory)
      → i + rounds ≤ 64
      → ((hex_digits rounds num i stack m).0 ≤ 64) × Stays m (hex_digits rounds num i stack m).1
  unfolding hex_digits
  hex_digits_lem zero num i m h = (omega arith, λ q out. refl)
  hex_digits_lem (suc rounds) num i m h = elim (Bool-cases (num == 0)) [
    | inl done ↦ rw done (omega arith, λ q out. refl)
    | inr more ↦ rw more (
        let rest =
          hex_digits_lem rounds (num / 16) (i + 1) (write m (stack + i) (hex_char (num % 16)))
            (omega arith) in
        (
          rest.0,
          λ q out.
              rest.1 q out
              ∙ write_stack m (stack + i) (hex_char (num % 16)) q out (omega arith) (omega arith),
        ))
  ]

  swap_ends-Stays : (rounds k j : ℕ) (m : Memory) → j < 64 → Stays m (swap_ends rounds k j stack m)
  unfolding swap_ends
  swap_ends-Stays zero k j m h q out = refl
  swap_ends-Stays (suc rounds) k j m h q out = elim (Bool-cases (ltb k j)) [
    | inl more ↦ rw more (
        swap_ends-Stays rounds (k + 1) (j - 1)
          (write (write m (stack + k) (m (stack + j))) (stack + j) (m (stack + k))) (omega arith) q
          out
        ∙ write_stack (write m (stack + k) (m (stack + j))) (stack + j) (m (stack + k)) q out
            (omega arith) (omega arith)
        ∙ write_stack m (stack + k) (m (stack + j)) q out (omega arith)
            (omega (arith, ltb→lt k j more)))
    | inr done ↦ rw done refl
  ]

  int_to_hex-Stays : (i : ℕ) (m : Memory) → Stays m (int_to_hex i stack m)
  unfolding int_to_hex
  int_to_hex-Stays i m q out = elim (Bool-cases (i == 0)) [
    | inl none_left ↦ rw none_left (write_stack m stack 48 q out (omega arith) (omega arith))
    | inr more ↦ rw more (
        let digits = hex_digits_lem 64 i 0 m (omega arith) in
        let small : u32 ((hex_digits 64 i 0 stack m).0 - 1) < 64 = omega (arith, digits.0) in
        swap_ends-Stays 64 0 (u32 ((hex_digits 64 i 0 stack m).0 - 1)) (hex_digits 64 i 0 stack m).1
          small q out
        ∙ digits.1 q out)
  ]

  pub format_hex-IsKept :
      (hex_int : ℕ) (o : Out) → o.offset ≤ 1024 → IsKept o (format_hex stack hex_int buffer o)
  unfolding format_hex
  format_hex-IsKept hex_int o h =
      IsKept_trans
        (record {
          grows = omega arith;
          within = h;
          others = λ q out.
              int_to_hex-Stays hex_int (memset o.mem stack 0 64) q out
              ∙ ground (arith, memset_lem o.mem stack 0 64 q, out);
        })
        (format_string-IsKept stack
          (record o { mem = int_to_hex hex_int stack (memset o.mem stack 0 64) }) h)

  format_digits-Returns :
      (char_of : ℕ → ℕ) (uint : ℕ) (o : Out)
      → uint ≤ 2 ^ 64
      → o.offset ≤ 1024
      → Returns o (format_digits char_of uint buffer o)
  format_digits-Returns char_of uint o small h =
      let (len, counted, short) = count_digits_lem 20 uint (omega arith) in
      rw counted (
        at_once o (put_backwards buffer (low_digits char_of len uint) o)
          (put_backwards-IsKept (low_digits char_of len uint) o h))

  format_uint-Returns :
      (uint : ℕ) (o : Out) → uint < 2 ^ 64 → o.offset ≤ 1024 → Returns o (format_uint uint buffer o)
  unfolding format_uint
  format_uint-Returns uint o small h = elim (Bool-cases (uint == 0)) [
    | inl z ↦ rw z (at_once o (put buffer 48 o) (put-IsKept 48 o h))
    | inr p ↦ rw p (format_digits-Returns (λ d. d + 48) uint o (omega arith) h)
  ]

  format_int-Returns :
      (integer : ℕ) (o : Out)
      → integer < 2 ^ 64
      → o.offset ≤ 1024
      → Returns o (format_int integer buffer o)
  unfolding format_int
  format_int-Returns integer o small h = elim (Bool-cases (integer == 0)) [
    | inl z ↦ rw z (at_once o (put buffer 48 o) (put-IsKept 48 o h))
    | inr p ↦ rw p (elim (Bool-cases (leb (2 ^ 63) integer)) [
      | inl n ↦ rw n (format_digits-Returns (λ d. 48 - d) (2 ^ 64 - integer) o (omega arith) h)
      | inr n ↦ rw n (format_digits-Returns (λ d. d + 48) integer o (omega arith) h)
    ])
  ]

  put_hex-Returns :
      (args : ℕ → ℕ) (o : Out) → o.offset ≤ 1024 → Returns o (put_hex args stack buffer o)
  unfolding put_hex
  put_hex-Returns args o h = elim (Bool-cases (ltb (o.offset + 2) max_string)) [
    | inl room ↦ rw room (
        let short : o.offset + 2 < 1024 = ltb→lt (o.offset + 2) 1024 room in
        at_once o _ (
          IsKept_trans
            (record {
              grows = omega arith;
              within = omega arith;
              others = λ q out.
                  write_outside (write o.mem (buffer + o.offset) 48) (buffer + (o.offset + 1)) 120 q
                    out (omega arith) (omega arith)
                  ∙ write_outside o.mem (buffer + o.offset) 48 q out (omega arith) (omega arith);
            })
            (format_hex-IsKept (args o.used)
              (next_arg (record o {
                mem = write (write o.mem (buffer + o.offset) 48) (buffer + (o.offset + 1)) 120;
                offset = o.offset + 2;
              }))
              (omega arith))))
    | inr full ↦ rw full (at_once o o (IsKept_refl o h))
  ]

  -- Each directive returns, and keeps to the two places.
  pub format_handler-Returns :
      (args : ℕ → ℕ) (format : ℕ) (o : Out)
      → ((i : ℕ) → args i < 2 ^ 64)
      → o.offset ≤ 1024
      → Returns o (format_handler args stack format buffer o)
  unfolding format_handler format_char
  format_handler-Returns args format o words h =
      elim (Bool-cases (format == 100 || format == 105)) [
        | inl d ↦ rw d (counted (format_int-Returns (args o.used) (next_arg o) (words o.used) h))
        | inr d ↦ rw d (elim (Bool-cases (format == 117)) [
          | inl u ↦ rw u (counted (format_uint-Returns (args o.used) (next_arg o) (words o.used) h))
          | inr u ↦ rw u (elim (Bool-cases (format == 88 || format == 112 || format == 120)) [
            | inl x ↦ rw x (put_hex-Returns args o h)
            | inr x ↦ rw x (elim (Bool-cases (format == 99)) [
              | inl c ↦
                  rw c (counted (at_once (next_arg o) _ (put-IsKept (args o.used) (next_arg o) h)))
              | inr c ↦ rw c (elim (Bool-cases (format == 115)) [
                | inl s ↦ rw s (
                    counted
                      (at_once (next_arg o) _ (format_string-IsKept (args o.used) (next_arg o) h)))
                | inr s ↦ rw s (at_once o o (IsKept_refl o h))
              ])
            ])
          ])
        ])
      ]
    where
      counted : {r : Outcome Out} → Returns (next_arg o) r → Returns o r
      counted r = record {
        after = r.after;
        returns = r.returns;
        kept = record { grows = r.kept.grows; within = r.kept.within; others = r.kept.others };
      }
