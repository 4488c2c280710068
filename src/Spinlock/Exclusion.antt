-- ===== src/Spinlock/Exclusion.antt =====
-- Any number of agents on one lock of kernel/lib/spinlock.h and spinlock.c, their atomic steps in
-- any order.
use mmd_os.Base.{
  ◌↔◌, ℕ, ◌≡◌, ◌≢◌, refl, sym, ap, ◌∙◌, if◌then◌else◌, ne→==, eq→==, ℕ_discrete, arith,
}
use mmd_os.Spinlock.{test_and_acq, release}
use mmd_os.Process.{update}

-- Where an agent is: not at the lock, in the loop of `spinlock_acquire`, or between that call and
-- `spinlock_release`.
pub data Phase : Type 0 where
  outside : Phase
  trying : Phase
  inside : Phase

pub record Agents : Type 0 where
  pub lock : ℕ
  pub phase : ℕ → Phase

abbrev pub all_outside : Agents
all_outside = record { lock = 0; phase = λ _. outside }

abbrev pub call : ℕ → Agents → Agents
call i s = record s { phase = update s.phase i trying }

-- One round of the loop: a test-and-set, and the way out of the loop when it won.
abbrev pub try : ℕ → Agents → Agents
try i s =
    let r = test_and_acq s.lock in
    record { lock = r.1; phase = if r.0 then update s.phase i inside else s.phase }

abbrev pub leave : ℕ → Agents → Agents
leave i s = record { lock = release s.lock; phase = update s.phase i outside }

pub data Reached : Agents → Type 0 where
  at_start : Reached all_outside
  after_call : {s : Agents} (i : ℕ) → Reached s → s.phase i ≡ outside → Reached (call i s)
  after_try : {s : Agents} (i : ℕ) → Reached s → s.phase i ≡ trying → Reached (try i s)
  after_leave : {s : Agents} (i : ℕ) → Reached s → s.phase i ≡ inside → Reached (leave i s)

-- The word is 0 when nobody is inside, and otherwise there is one agent inside.
pub record IsExclusive (s : Agents) : Type 0 where
  pub open_when_zero : s.lock ≡ 0 → (i : ℕ) → s.phase i ≢ inside
  pub one_inside : (i j : ℕ) → s.phase i ≡ inside → s.phase j ≡ inside → i ≡ j
  pub held_by : s.lock ≢ 0 → (i : ℕ) × (s.phase i ≡ inside)

update-same : (f : ℕ → Phase) (i : ℕ) (p : Phase) → update f i p i ≡ p
update-same f i p = rw (eq→== i i refl) refl

update-other : (f : ℕ → Phase) (i j : ℕ) (p : Phase) → i ≢ j → update f i p j ≡ f j
update-other f i j p n = rw (ne→== i j n) refl

-- An agent inside after a change of agent `i` to another phase was inside before, and is not `i`.
still_inside :
    (f : ℕ → Phase) (i j : ℕ) (p : Phase)
    → p ≢ inside
    → update f i p j ≡ inside
    → (i ≢ j) × (f j ≡ inside)
still_inside f i j p out h = elim (ℕ_discrete i j) [
  | yes e ↦ absurd (out (sym (update-same f i p) ∙ ap (update f i p) e ∙ h))
  | no n ↦ (n, sym (update-other f i j p n) ∙ h)
]

call-IsExclusive :
    (s : Agents) (i : ℕ) → s.phase i ≡ outside → IsExclusive s → IsExclusive (call i s)
call-IsExclusive s i o x = record {
  open_when_zero = λ z j h. x.open_when_zero z j (still_inside s.phase i j trying (λ e. cc) h).1;
  one_inside = λ j k h h'.
      x.one_inside j k (still_inside s.phase i j trying (λ e. cc) h).1
        (still_inside s.phase i k trying (λ e. cc) h').1;
  held_by = λ n.
      let (j, h) = x.held_by n in
      (
        j,
        update-other s.phase i j trying (λ e. absurd (outside≢inside (sym o ∙ ap s.phase e ∙ h)))
            ∙ h,
      );
}
  where
    outside≢inside : outside ≢ inside
    outside≢inside e = cc

leave-IsExclusive :
    (s : Agents) (i : ℕ) → s.phase i ≡ inside → IsExclusive s → IsExclusive (leave i s)
unfolding release
leave-IsExclusive s i o x = record {
  open_when_zero = λ _. nobody;
  one_inside = λ j k h h'. absurd (nobody j h);
  held_by = λ n. absurd (n refl);
}
  where
    nobody : (j : ℕ) → update s.phase i outside j ≢ inside
    nobody j h =
        let (n, was) = still_inside s.phase i j outside (λ e. cc) h in n (x.one_inside i j o was)

try-IsExclusive : (s : Agents) (i : ℕ) → s.phase i ≡ trying → IsExclusive s → IsExclusive (try i s)
unfolding test_and_acq
try-IsExclusive s i o x = elim (ℕ_discrete s.lock 0) [
  | yes z ↦ rw (eq→== s.lock 0 z) (record {
    open_when_zero = λ e. absurd (omega arith);
    one_inside = λ j k h h'. sym (only z j h) ∙ only z k h';
    held_by = λ n. (i, update-same s.phase i inside);
  })
  | no n ↦ rw (ne→== s.lock 0 n) x
]
  where
    only : s.lock ≡ 0 → (j : ℕ) → update s.phase i inside j ≡ inside → i ≡ j
    only z j h = elim (ℕ_discrete i j) [
      | yes e ↦ e
      | no n ↦ absurd (x.open_when_zero z j (sym (update-other s.phase i j inside n) ∙ h))
    ]

Reached→IsExclusive : {s : Agents} → Reached s → IsExclusive s
Reached→IsExclusive at_start = record {
  open_when_zero = λ z i e. cc;
  one_inside = λ i j e f. cc;
  held_by = λ n. absurd (n refl);
}
Reached→IsExclusive (after_call {s = s} i r o) = call-IsExclusive s i o (Reached→IsExclusive r)
Reached→IsExclusive (after_try {s = s} i r o) = try-IsExclusive s i o (Reached→IsExclusive r)
Reached→IsExclusive (after_leave {s = s} i r o) = leave-IsExclusive s i o (Reached→IsExclusive r)

-- In every state that any number of agents reach by calling `spinlock_acquire`, testing the lock in
-- its loop, and calling `spinlock_release` from inside, in whatever order, while one agent is
-- between the two calls no other one is.
pub spinlock_excludes :
    {s : Agents} (i j : ℕ) → Reached s → s.phase i ≡ inside → i ≢ j → s.phase j ≢ inside
spinlock_excludes i j r h n h' = n ((Reached→IsExclusive r).one_inside i j h h')

-- In every state that agents reach in that way, an agent in the loop gets inside by its next test
-- exactly if no agent is inside before it.
pub try_enters :
    {s : Agents} (i : ℕ)
    → Reached s
    → s.phase i ≡ trying
    → ((try i s).phase i ≡ inside) ↔ ((j : ℕ) → s.phase j ≢ inside)
unfolding test_and_acq
try_enters {s = s} i r o = elim (ℕ_discrete s.lock 0) [
  | yes z ↦ rw (eq→== s.lock 0 z) (λ e. x.open_when_zero z, λ e. update-same s.phase i inside)
  | no n ↦ rw (ne→== s.lock 0 n) (
    λ e. absurd (trying≢inside (sym o ∙ e)),
    λ nobody. let (j, h) = x.held_by n in absurd (nobody j h),
  )
]
  where
    x : IsExclusive s
    x = Reached→IsExclusive r

    trying≢inside : trying ≢ inside
    trying≢inside e = cc
