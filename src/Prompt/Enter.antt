-- ===== src/Prompt/Enter.antt =====
-- The enter key of kernel/terminal/prompt.c: which command a line starts, and the empty line after
-- it.
use mmd_os.Base.{
  ℕ, zero, suc, ◌+◌, ◌-◌, ◌≤◌, ◌<◌, ◌≡◌, ◌≢◌, refl, ap, ◌∙◌, arith, Bool, true, false,
  if◌then◌else◌, ltb, ◌==◌, ◌&&◌, lt→ltb, le→ltb, Option, none, some, List, [], ◌∷◌, length, get_or,
  replicate, ok, ◌>>=◌,
}
use mmd_os.Memory.{Memory}
use mmd_os.Strings.{kstrcmp}
use mmd_os.Strings.Compare.{same, kstrcmp-same}
use mmd_os.Prompt.{Prompt}
use mmd_os.Prompt.Editor.{Holds}
use mmd_os.Prompt.Commands.{
  Command, clear, cat, gol, snake, ls, word, line_memory, commands, first_match, next_line,
  prompt_enter_handler,
}

-- Whether a line begins with a word.
unfoldable pub starts_with : List ℕ → List ℕ → Bool
starts_with [] line = true
starts_with (w ∷ ws) [] = false
starts_with (w ∷ ws) (c ∷ cs) = c == w && starts_with ws cs

unfoldable pub first_word : List Command → List ℕ → Option Command
first_word [] line = none
first_word (c ∷ cs) line = if starts_with (word c) line then some c else first_word cs line

-- No character of a word is zero.
IsWord : List ℕ → Type 0
IsWord w = (i : ℕ) → i < length w → get_or w i 0 ≢ 0

+0 : (a : ℕ) → a + 0 ≡ a
+0 a = omega arith

next : (a i : ℕ) → a + 1 + i ≡ a + suc i
next a i = omega arith

same-starts_with :
    (m : Memory) (w line : List ℕ) (a b : ℕ)
    → IsWord w
    → ((i : ℕ) → i < length w → m (a + i) ≡ get_or line i 0)
    → ((i : ℕ) → i < length w → m (b + i) ≡ get_or w i 0)
    → same m a b (length w) ≡ starts_with w line
unfolding same starts_with IsWord
same-starts_with m [] line a b whole left right = refl
same-starts_with m (w ∷ ws) [] a b whole left right = ground (
  arith,
  ap m (+0 a),
  ap m (+0 b),
  left 0 (omega arith),
  right 0 (omega arith),
  whole 0 (omega arith),
)
same-starts_with m (w ∷ ws) (c ∷ cs) a b whole left right = ground (
  arith,
  ap m (+0 a),
  ap m (+0 b),
  left 0 (omega arith),
  right 0 (omega arith),
  whole 0 (omega arith),
  same-starts_with m ws cs (a + 1) (b + 1) (λ i low. whole (suc i) (omega arith))
      (λ i low. ap m (next a i) ∙ left (suc i) (omega arith))
      (λ i low. ap m (next b i) ∙ right (suc i) (omega arith)),
)

IsWord-[] : IsWord []
unfolding IsWord
IsWord-[] i low = absurd (omega (arith, low))

IsWord-∷ : (w : ℕ) (ws : List ℕ) → w ≢ 0 → IsWord ws → IsWord (w ∷ ws)
unfolding IsWord
IsWord-∷ w ws nonzero rest zero low = nonzero
IsWord-∷ w ws nonzero rest (suc i) low = rest i (omega (arith, low))

word-IsWord : (c : Command) → IsWord (word c)
word-IsWord clear = IsWord-∷ 99 _ (omega arith) (
    IsWord-∷ 108 _ (omega arith) (
      IsWord-∷ 101 _ (omega arith)
        (IsWord-∷ 97 _ (omega arith) (IsWord-∷ 114 _ (omega arith) IsWord-[]))))
word-IsWord cat =
    IsWord-∷ 99 _ (omega arith)
      (IsWord-∷ 97 _ (omega arith) (IsWord-∷ 116 _ (omega arith) IsWord-[]))
word-IsWord gol =
    IsWord-∷ 103 _ (omega arith)
      (IsWord-∷ 111 _ (omega arith) (IsWord-∷ 108 _ (omega arith) IsWord-[]))
word-IsWord snake = IsWord-∷ 115 _ (omega arith) (
    IsWord-∷ 110 _ (omega arith) (
      IsWord-∷ 97 _ (omega arith)
        (IsWord-∷ 107 _ (omega arith) (IsWord-∷ 101 _ (omega arith) IsWord-[]))))
word-IsWord ls = IsWord-∷ 108 _ (omega arith) (IsWord-∷ 115 _ (omega arith) IsWord-[])

length-word : (c : Command) → (0 < length (word c)) × (length (word c) ≤ 5)
length-word clear = (omega arith, omega arith)
length-word cat = (omega arith, omega arith)
length-word gol = (omega arith, omega arith)
length-word snake = (omega arith, omega arith)
length-word ls = (omega arith, omega arith)

in_line : (line w : List ℕ) (i : ℕ) → i < 1024 → line_memory line w (0 + i) ≡ get_or line i 0
in_line line w i low =
    ap (line_memory line w) (omega arith)
    ∙ ap (λ b. if b then get_or line i 0 else get_or w (i - 1024) 0) (lt→ltb i 1024 low)

in_word : (line w : List ℕ) (i : ℕ) → line_memory line w (1024 + i) ≡ get_or w i 0
in_word line w i = rw (le→ltb (1024 + i) 1024 (omega arith)) (ap (λ k. get_or w k 0) (omega arith))

kstrcmp-word :
    (c : Command) (line : List ℕ)
    → kstrcmp 5 (line_memory line (word c)) 0 1024 (length (word c))
      ≡ ok (starts_with (word c) line)
kstrcmp-word c line =
    kstrcmp-same 5 (line_memory line (word c)) 0 1024 (length (word c)) (length-word c).0
      (length-word c).1 (omega (arith, (length-word c).1))
    ∙ ap ok (
        same-starts_with (line_memory line (word c)) (word c) line 0 1024 (word-IsWord c)
          (λ i low. in_line line (word c) i (omega (arith, low, (length-word c).1)))
          (λ i low. in_word line (word c) i))

first_match-first_word :
    (cs : List Command) (line : List ℕ) → first_match cs line ≡ ok (first_word cs line)
unfolding first_word first_match
first_match-first_word [] line = refl
first_match-first_word (c ∷ cs) line =
    ap (λ o. o >>= λ equal. if equal then ok (some c) else first_match cs line)
      (kstrcmp-word c line)
    ∙ chosen (starts_with (word c) line) (first_match-first_word cs line)
  where
    chosen :
        (b : Bool)
        → first_match cs line ≡ ok (first_word cs line)
        → (if b then ok (some c) else first_match cs line)
          ≡ ok (if b then some c else first_word cs line)
    chosen true rest = refl
    chosen false rest = rest

-- The enter key always returns. On a line that was typed it names the first of clear, cat, gol,
-- snake and ls with which the buffer starts, none if there is none, and on an empty line none; and
-- it leaves the empty line: 1024 zeros, with both counts 0, whatever the buffer held.
pub prompt_enter_handler-first_word :
    (p : Prompt)
    → (q : Prompt) × (prompt_enter_handler p
        ≡ ok (if ltb 0 p.line_len then first_word commands p.buffer else none, q))
      × Holds [] q
unfolding prompt_enter_handler
prompt_enter_handler-first_word p =
    let typed : Bool = ltb 0 p.line_len in
    (
      _,
      ap (λ o. o >>= λ found. ok (found, next_line typed found p)) (searched typed p.buffer),
      record {
        len = refl;
        pointer = refl;
        text = λ room e. ap (λ k. replicate k 0) {x = 1024} (omega (arith, e));
      },
    )
  where
    searched :
        (typed : Bool) (line : List ℕ)
        → (if typed then first_match commands line else ok none)
          ≡ ok (if typed then first_word commands line else none)
    searched true line = first_match-first_word commands line
    searched false line = refl
