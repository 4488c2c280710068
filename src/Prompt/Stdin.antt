-- ===== src/Prompt/Stdin.antt =====
-- The lock on standard input of kernel/terminal/prompt.c over runs of calls.
use mmd_os.Base.{ℕ, ◌≡◌, ◌≢◌, refl, true, false, ne→==, eq→==, List, [], ◌∷◌}
use mmd_os.Prompt.{Prompt, prompt_lockstdin, prompt_unlockstdin}

-- A call by a process, named by its pid.
pub data Request : Type 0 where
  lock_by : ℕ → Request
  unlock_by : ℕ → Request

abbrev pub caller : Request → ℕ
caller (lock_by pid) = pid
caller (unlock_by pid) = pid

abbrev pub serve : Request → Prompt → Prompt
serve (lock_by pid) p = (prompt_lockstdin pid p).1
serve (unlock_by pid) p = prompt_unlockstdin pid p

abbrev pub serve_all : List Request → Prompt → Prompt
serve_all [] p = p
serve_all (r ∷ rs) p = serve_all rs (serve r p)

abbrev pub NoneBy : ℕ → List Request → Type 0
NoneBy pid [] = Unit {0}
NoneBy pid (r ∷ rs) = (pid ≢ caller r) × NoneBy pid rs

abbrev pub IsHeldBy : ℕ → Prompt → Type 0
IsHeldBy pid p = (p.stdin_lock ≡ true) × (p.locker_id ≡ pid)

serve-held : (pid : ℕ) (r : Request) (p : Prompt) → pid ≢ caller r → IsHeldBy pid p → serve r p ≡ p
unfolding prompt_lockstdin prompt_unlockstdin
serve-held pid (lock_by other) p n h = rw (h.0) refl
serve-held pid (unlock_by other) p n h = rw (h.0) (rw (h.1) (rw (ne→== pid other n) refl))

serve_all-held :
    (pid : ℕ) (rs : List Request) (p : Prompt) → NoneBy pid rs → IsHeldBy pid p → serve_all rs p ≡ p
serve_all-held pid [] p n h = refl
serve_all-held pid (r ∷ rs) p n h = rw (serve-held pid r p n.0 h) (serve_all-held pid rs p n.1 h)

-- When standard input is not locked, a process that locks it gets 1, and whatever calls to lock and
-- to unlock other processes then make, it is still the one that holds it; a second call of its own
-- to lock gives 0, and its call to unlock frees standard input, so that any process's next call to
-- lock gives 1.
pub stdin_lock_is_kept :
    (pid next : ℕ) (rs : List Request) (p : Prompt)
    → p.stdin_lock ≡ false
    → NoneBy pid rs
    → let held = serve_all rs (prompt_lockstdin pid p).1 in
      ((prompt_lockstdin pid p).0 ≡ 1)
      × IsHeldBy pid held
      × ((prompt_lockstdin pid held).0 ≡ 0)
      × ((prompt_lockstdin next (prompt_unlockstdin pid held)).0 ≡ 1)
unfolding prompt_lockstdin prompt_unlockstdin
stdin_lock_is_kept pid next rs p free none =
    rw free (rw kept (refl, (refl, refl), refl, rw (eq→== pid pid refl) refl))
  where
    locked : Prompt
    locked = record p { locker_id = pid; stdin_lock = true }

    kept : serve_all rs locked ≡ locked
    kept = serve_all-held pid rs locked none (refl, refl)
