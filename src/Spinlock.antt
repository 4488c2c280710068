-- ===== src/Spinlock.antt =====
-- kernel/lib/spinlock.h and spinlock.c: one lock word, 0 when free.
mod Tests
pub mod Exclusion
use mmd_os.Base.{ℕ, Bool, true, false, if◌then◌else◌, ◌==◌, Outcome, ok, spinning}

-- `__sync_bool_compare_and_swap(&lock->lock, 0, 1)`: whether it swapped, and the word after it.
unfoldable pub test_and_acq : ℕ → Bool × ℕ
test_and_acq lock = if lock == 0 then (true, 1) else (false, lock)

-- With no other agent at work, the loop of `spinlock_acquire` ends at its first round or never.
unfoldable pub acquire : ℕ → Outcome ℕ
unfolding test_and_acq
acquire lock = let (won, lock') = test_and_acq lock in if won then ok lock' else spinning

unfoldable pub release : ℕ → ℕ
release lock = 0
