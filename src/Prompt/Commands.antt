-- ===== src/Prompt/Commands.antt =====
-- The enter key of kernel/terminal/prompt.c: the commands and what is printed.
use mmd_os.Base.{
  ℕ, zero, suc, ◌-◌, Bool, true, false, if◌then◌else◌, ltb, ◌==◌, Option, none, some, List, [], ◌∷◌,
  ◌++◌, length, get_or, replicate, Outcome, ok, ◌>>=◌,
}
use mmd_os.Memory.{Memory}
use mmd_os.Strings.{kstrcmp}
use mmd_os.Prompt.{Prompt}

pub data Command : Type 0 where
  clear : Command
  cat : Command
  gol : Command
  snake : Command
  ls : Command

-- The string constant of a command.
abbrev pub word : Command → List ℕ
word clear = 99 ∷ 108 ∷ 101 ∷ 97 ∷ 114 ∷ []
word cat = 99 ∷ 97 ∷ 116 ∷ []
word gol = 103 ∷ 111 ∷ 108 ∷ []
word snake = 115 ∷ 110 ∷ 97 ∷ 107 ∷ 101 ∷ []
word ls = 108 ∷ 115 ∷ []

-- The buffer at 0, and behind it a string constant.
abbrev pub line_memory : List ℕ → List ℕ → Memory
line_memory buffer constant q =
    if ltb q 1024 then get_or buffer q 0 else get_or constant (q - 1024) 0

-- The chain of tests: `kstrcmp(buffer, word, length)` for one command after the other.
unfoldable pub first_match : List Command → List ℕ → Outcome (Option Command)
first_match [] buffer = ok none
first_match (c ∷ cs) buffer =
    kstrcmp 5 (line_memory buffer (word c)) 0 1024 (length (word c)) >>= λ equal.
    if equal then ok (some c) else first_match cs buffer

-- Bytes sent to the terminal; the list holds the latest first.
pub emit : List ℕ → List ℕ → List ℕ
emit [] printed = printed
emit (c ∷ cs) printed = emit cs (c ∷ printed)

-- The string at the start of the buffer.
pub text_of : List ℕ → List ℕ
text_of [] = []
text_of (c ∷ cs) = if c == 0 then [] else c ∷ text_of cs

-- What `prompt_clear` prints: 49 times a line up and 101 spaces, and a line up.
pub blank_lines : ℕ → List ℕ → List ℕ
blank_lines zero printed = emit (27 ∷ 91 ∷ 70 ∷ []) printed
blank_lines (suc n) printed = blank_lines n (emit (27 ∷ 91 ∷ 70 ∷ replicate 101 32) printed)

-- What is printed for the line, after its newline.
pub reply : Bool → Option Command → List ℕ → List ℕ → List ℕ
reply false found buffer printed = emit (36 ∷ 58 ∷ 32 ∷ []) printed
reply true none buffer printed = emit (text_of buffer ++ 10 ∷ 36 ∷ 58 ∷ 32 ∷ []) printed
reply true (some clear) buffer printed = emit (36 ∷ 58 ∷ 32 ∷ []) (blank_lines 49 printed)
reply true (some c) buffer printed = printed

-- The commands, in the order of their tests.
abbrev pub commands : List Command
commands = clear ∷ cat ∷ gol ∷ snake ∷ ls ∷ []

-- The state after the line: an empty one, and what was printed.
abbrev pub next_line : Bool → Option Command → Prompt → Prompt
next_line typed found p = record p {
  buffer = replicate 1024 0;
  line_len = 0;
  buffer_pointer = 0;
  printed = reply typed found p.buffer (10 ∷ p.printed);
}

-- `prompt_enter_handler`: the command that the line starts, which `process_create` makes a process
-- of unless it is `clear`. The line number, which nothing reads, is left out, and an echoed line is
-- one that fits the buffer of kprintf.
unfoldable pub prompt_enter_handler : Prompt → Outcome (Option Command × Prompt)
prompt_enter_handler p =
    let typed = ltb 0 p.line_len in
    (if typed then first_match commands p.buffer else ok none) >>= λ found.
    ok (found, next_line typed found p)
