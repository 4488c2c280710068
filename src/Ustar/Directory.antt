-- ===== src/Ustar/Directory.antt =====
-- The helpers by which kernel/fs/ustar.c lists a directory. The string constant "\0" that
-- remove_prefix may return lies at `empty`.
use mmd_os.Base.{
  ℕ, zero, suc, ◌+◌, ◌<◌, ◌≡◌, ◌≢◌, ap, ◌∙◌, arith, Bool, if◌then◌else◌, ltb, ◌==◌, ◌!=◌, ◌&&◌,
  ◌||◌, ne→==, u16, u64, Outcome, ok, out_of_fuel, ◌>>=◌, false,
}
use mmd_os.Memory.{Memory, write}
use mmd_os.Strings.{kstrcmp}
use mmd_os.Ustar.{Ustar, null, is_zeroed, copy_name, mend_slashes, round_up, size_of}

-- A slash in front is passed over.
abbrev pub skip_slash : Memory → ℕ → ℕ
skip_slash m path = if m path != 0 && m path == 47 then path + 1 else path

-- The index of the first slash or of the end, from `index` on, on fuel.
unfoldable pub component_end : ℕ → Memory → ℕ → ℕ → Outcome ℕ
component_end zero m path index = out_of_fuel
component_end (suc fuel) m path index =
    let rest = component_end fuel m path (u16 (index + 1)) in
    if m (path + index) != 0 && m (path + index) != 47 then rest else ok index

-- Both paths are cut behind their first names in place; the second argument may be a constant.
pub is_in_same_dir : ℕ → ℕ → ℕ → Memory → Outcome (Bool × Memory)
is_in_same_dir fuel path1 path2 m =
    let p1 = skip_slash m path1 in
    let p2 = skip_slash m path2 in
    if m p2 == 0
    then ok (false, m)
    else (component_end fuel m p1 0 >>= λ index1.
        let m1 = write m (p1 + index1) 0 in
        component_end fuel m1 p2 0 >>= λ index2.
        let m2 = write m1 (p2 + index2) 0 in kstrcmp fuel m2 p1 p2 0 >>= λ result. ok (result, m2))

-- The loop of `remove_prefix`, on fuel: where it stops in the path.
unfoldable pub past_prefix : ℕ → Memory → ℕ → ℕ → Outcome ℕ
past_prefix zero m dest prefix = out_of_fuel
past_prefix (suc fuel) m dest prefix =
    let rest = past_prefix fuel m (dest + 1) (prefix + 1) in
    if m dest == m prefix
    then if m (dest + 1) == 0 || m (prefix + 1) == 0 then ok (dest + 1) else rest
    else ok dest

unfoldable pub remove_prefix : ℕ → ℕ → Memory → ℕ → ℕ → Outcome ℕ
remove_prefix empty fuel m dest prefix =
    if m (skip_slash m prefix) == 0
    then ok (skip_slash m dest)
    else (past_prefix fuel m (skip_slash m dest) (skip_slash m prefix) >>= λ stop.
        ok (if m stop != 47 then empty else stop + 1))

-- The loop of `tar_file_prefix_lookup`, on fuel: the first header that is not zeroed. At a block of
-- zeros the record stays where it is; the comparison with the directory is a comment in the code.
pub next_header : ℕ → ℕ → ℕ → ℕ → Memory → Outcome (ℕ × Memory)
next_header zero tar_filename zero_counter current m = out_of_fuel
next_header (suc fuel) tar_filename zero_counter current m =
    let again = next_header fuel tar_filename (zero_counter + 1) current m in
    if ltb zero_counter 2
    then if is_zeroed m current
      then again
      else ok (current, mend_slashes 255 tar_filename (copy_name tar_filename current m))
    else ok (null, m)

-- Three rounds: the loop ends in the first round that finds no zeros, or after two that do.
unfoldable pub tar_file_prefix_lookup : ℕ → ℕ → Ustar → Outcome (ℕ × Ustar)
tar_file_prefix_lookup tar_filename current u =
    (if current == null
      then ok u.tar_fs_start_address
      else (size_of u.mem current >>= λ size. ok (u64 (current + 512 + round_up size))))
    >>= λ start. next_header 3 tar_filename 0 start u.mem >>= λ (header, m).
        ok (header, record u { mem = m })

-- `n` bytes that are not zero agree at the path and at the prefix; the prefix ends there, and the
-- path goes on with a slash.
pub record IsBelow (m : Memory) (dest prefix n : ℕ) : Type 0 where
  pub agree : (i : ℕ) → i < n → m (dest + i) ≡ m (prefix + i)
  pub letter : (i : ℕ) → i < n → m (prefix + i) ≢ 0
  pub ended : m (prefix + n) ≡ 0
  pub slash : m (dest + n) ≡ 47

first_byte :
    (n : ℕ) (m : Memory) (dest prefix : ℕ) → IsBelow m dest prefix (suc n) → m dest ≡ m prefix
first_byte n m dest prefix b = ap m (omega arith) ∙ b.agree 0 (omega arith) ∙ ap m (omega arith)

-- Fuel for the bytes of the prefix is enough for the loop to stop at the slash behind them.
pub past_prefix-IsBelow :
    (n fuel : ℕ) (m : Memory) (dest prefix : ℕ)
    → IsBelow m dest prefix (suc n)
    → n < fuel
    → past_prefix fuel m dest prefix ≡ ok (dest + suc n)
unfolding past_prefix
past_prefix-IsBelow n zero m dest prefix b h = absurd (omega arith)
past_prefix-IsBelow zero (suc fuel) m dest prefix b h =
    ground (arith, first_byte zero m dest prefix b, b.ended)
past_prefix-IsBelow (suc n) (suc fuel) m dest prefix b h = ground (
  arith,
  first_byte (suc n) m dest prefix b,
  b.agree 1 (omega arith),
  b.letter 1 (omega arith),
  past_prefix-IsBelow n fuel m (dest + 1) (prefix + 1) next (omega arith),
)
  where
    next : IsBelow m (dest + 1) (prefix + 1) (suc n)
    next = record {
      agree = λ i k. ap m (omega arith) ∙ b.agree (suc i) (omega arith) ∙ ap m (omega arith);
      letter = λ i k e. b.letter (suc i) (omega arith) (ap m (omega arith) ∙ e);
      ended = ap m (omega arith) ∙ b.ended;
      slash = ap m (omega arith) ∙ b.slash;
    }

-- A path below a directory: both without a slash in front, the directory's name of at least one byte.
-- With fuel for those bytes remove_prefix answers the path behind the directory's slash.
pub remove_prefix-IsBelow :
    (n empty fuel : ℕ) (m : Memory) (dest prefix : ℕ)
    → m dest ≢ 47
    → IsBelow m dest prefix (suc n)
    → n < fuel
    → remove_prefix empty fuel m dest prefix ≡ ok (dest + suc (suc n))
unfolding remove_prefix
remove_prefix-IsBelow n empty fuel m dest prefix bare b h =
    rw (bare_path dest bare, bare_path prefix apart)
      (rw (ne→== (m prefix) 0 nonzero, past_prefix-IsBelow n fuel m dest prefix b h)
        (rw b.slash (ap ok (omega arith))))
  where
    apart : m prefix ≢ 47
    apart e = bare (first_byte n m dest prefix b ∙ e)

    nonzero : m prefix ≢ 0
    nonzero e = b.letter 0 (omega arith) (ap m (omega arith) ∙ e)

    bare_path : (p : ℕ) → m p ≢ 47 → skip_slash m p ≡ p
    bare_path p h = ground arith
