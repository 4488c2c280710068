-- ===== src/Prompt/Editor.antt =====
-- The line editor of kernel/terminal/prompt.c against a list of characters.
use mmd_os.Base.{
  ℕ, zero, suc, ◌+◌, ◌-◌, ◌^◌, ◌≤◌, ◌<◌, ◌≡◌, ◌≢◌, refl, ap, ap₂, ◌∙◌, arith, if◌then◌else◌, ◌==◌,
  ne→==, eq→==, ℕ_discrete, List, [], ◌∷◌, set, length, replicate, u16,
}
use mmd_os.Prompt.{Prompt, prompt_handler, prompt_char_handler, prompt_backspace_handler}

-- A line as it is typed: the characters, the latest first, and what a key other than enter does.
abbrev pub edit : ℕ → List ℕ → List ℕ
edit c [] = if c == 8 then [] else c ∷ []
edit c (x ∷ line) = if c == 8 then line else c ∷ x ∷ line

abbrev pub edit_all : List ℕ → List ℕ → List ℕ
edit_all [] line = line
edit_all (c ∷ cs) line = edit_all cs (edit c line)

abbrev pub NoEnter : List ℕ → Type 0
NoEnter [] = Unit {0}
NoEnter (c ∷ cs) = (c ≢ 10) × NoEnter cs

abbrev pub press_all : (Prompt → Prompt) → List ℕ → Prompt → Prompt
press_all enter [] p = p
press_all enter (c ∷ cs) p = press_all enter cs (prompt_handler enter c p)

-- The first list reversed in front of the second.
abbrev pub rev_append : List ℕ → List ℕ → List ℕ
rev_append [] ys = ys
rev_append (x ∷ xs) ys = rev_append xs (x ∷ ys)

-- The buffer of 1024 holds the line and then zeros, and both counts are the line's length.
pub record Holds (line : List ℕ) (p : Prompt) : Type 0 where
  pub len : p.line_len ≡ length line
  pub pointer : p.buffer_pointer ≡ length line
  pub text : (room : ℕ) → length line + room ≡ 1024 → p.buffer ≡ rev_append line (replicate room 0)

set-rev_append :
    (xs ys : List ℕ) (k v : ℕ)
    → set (rev_append xs ys) (length xs + k) v ≡ rev_append xs (set ys k v)
set-rev_append [] ys k v = ap (λ i. set ys i v) (omega arith)
set-rev_append (x ∷ xs) ys k v =
    ap (λ i. set (rev_append xs (x ∷ ys)) i v) (omega arith) ∙ set-rev_append xs (x ∷ ys) (suc k) v

char-Holds :
    (enter : Prompt → Prompt) (c : ℕ) (line : List ℕ) (p : Prompt)
    → c ≢ 8
    → c ≢ 10
    → length line < 255
    → Holds line p
    → Holds (c ∷ line) (prompt_handler enter c p)
unfolding prompt_handler prompt_char_handler
char-Holds enter c line p n8 n10 short h = rw (ne→== c 8 n8) (
    rw (ne→== c 10 n10) (record {
      len = omega (arith, h.len);
      pointer = omega (arith, h.pointer);
      text = λ room e.
          ap₂ (λ b i. set b i c) (h.text (suc room) (omega (arith, e))) (at room e)
          ∙ set-rev_append line (replicate (suc room) 0) 0 c;
    }))
  where
    at : (room : ℕ) → length (c ∷ line) + room ≡ 1024 → p.buffer_pointer ≡ length line + 0
    at room e = omega (arith, h.pointer)

-- The write of a backspace: the last character becomes a zero again.
erased :
    (x : ℕ) (line : List ℕ) (p : Prompt) (room : ℕ)
    → length line < 255
    → Holds (x ∷ line) p
    → length line + room ≡ 1024
    → set p.buffer (u16 (p.buffer_pointer + 2 ^ 16 - 1)) 0 ≡ rev_append line (replicate room 0)
erased x line p zero short h e = absurd (omega (arith, e))
erased x line p (suc room) short h e =
    ap₂ (λ b i. set b i 0) (h.text room (omega (arith, e))) at
    ∙ set-rev_append line (x ∷ replicate room 0) 0 0
  where
    at : u16 (p.buffer_pointer + 2 ^ 16 - 1) ≡ length line + 0
    at = omega (arith, h.pointer)

backspace-Holds :
    (enter : Prompt → Prompt) (c : ℕ) (line : List ℕ) (p : Prompt)
    → c ≡ 8
    → length line < 256
    → Holds line p
    → Holds (edit c line) (prompt_handler enter c p)
unfolding prompt_handler prompt_backspace_handler
backspace-Holds enter c [] p e short h = rw e (rw (eq→== p.line_len 0 h.len) h)
backspace-Holds enter c (x ∷ line) p e short h = rw e (
    rw (ne→== p.line_len 0 (omega (arith, h.len))) (record {
      len = omega (arith, h.len);
      pointer = omega (arith, h.pointer);
      text = λ room e. erased x line p room (omega arith) h e;
    }))

edit-Holds :
    (enter : Prompt → Prompt) (c : ℕ) (line : List ℕ) (p : Prompt)
    → c ≢ 10
    → length line < 255
    → Holds line p
    → Holds (edit c line) (prompt_handler enter c p)
edit-Holds enter c line p n10 short h = elim (ℕ_discrete c 8) [
  | yes e ↦ backspace-Holds enter c line p e (omega arith) h
  | no n ↦ rw (typed line n) (char-Holds enter c line p n n10 short h)
]
  where
    typed : (line : List ℕ) → c ≢ 8 → edit c line ≡ c ∷ line
    typed [] n = rw (ne→== c 8 n) refl
    typed (x ∷ line) n = rw (ne→== c 8 n) refl

length-edit : (c : ℕ) (line : List ℕ) → length (edit c line) ≤ length line + 1
length-edit c [] = elim (ℕ_discrete c 8) [
  | yes e ↦ rw (eq→== c 8 e) (omega arith)
  | no n ↦ rw (ne→== c 8 n) (omega arith)
]
length-edit c (x ∷ line) = elim (ℕ_discrete c 8) [
  | yes e ↦ rw (eq→== c 8 e) (omega arith)
  | no n ↦ rw (ne→== c 8 n) (omega arith)
]

-- From a buffer that holds a line, keys other than enter, of which there are at most 255 less the
-- line's length, leave the buffer holding the line edited key by key: a character goes to its end,
-- and a backspace takes the last one off or leaves the empty line alone. Behind the line there are
-- zeros only, and the length and the write position are those of the line.
pub prompt_edits :
    (enter : Prompt → Prompt) (cs line : List ℕ) (p : Prompt)
    → NoEnter cs
    → length line + length cs ≤ 255
    → Holds line p
    → Holds (edit_all cs line) (press_all enter cs p)
prompt_edits enter [] line p n short h = h
prompt_edits enter (c ∷ cs) line p n short h =
    prompt_edits enter cs (edit c line) (prompt_handler enter c p) n.1
      (omega (arith, length-edit c line)) (edit-Holds enter c line p n.0 (omega arith) h)
