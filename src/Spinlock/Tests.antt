-- ===== src/Spinlock/Tests.antt =====
-- Two agents on one lock of kernel/lib/spinlock.h.
use mmd_os.Base.{ℕ, ◌≡◌, ◌≢◌, ◌↔◌, refl, arith}
use mmd_os.Spinlock.{test_and_acq}
use mmd_os.Spinlock.Exclusion.{
  inside, Agents, all_outside, call, try, Reached, at_start, after_call, after_try,
  spinlock_excludes, try_enters,
}

-- Agents 1 and 2 call, and agent 1 is first.
abbrev both : Agents
both = try 1 (call 2 (call 1 all_outside))

both-Reached : Reached both
both-Reached = after_try 1 (after_call 2 (after_call 1 at_start refl) refl) refl

spinlock_excludes_example : both.phase 2 ≢ inside
unfolding test_and_acq
spinlock_excludes_example = spinlock_excludes 1 2 both-Reached refl (λ e. omega arith)

try_enters_example : ((try 2 both).phase 2 ≡ inside) ↔ ((j : ℕ) → both.phase j ≢ inside)
unfolding test_and_acq
try_enters_example = try_enters 2 both-Reached refl
