-- ===== src/Process/Queue.antt =====
-- The queue of kernel/scheduler/process.c as a list of addresses: adding appends, deleting removes.
use mmd_os.Base.{
  ℕ, zero, suc, ◌<◌, ◌≡◌, refl, arith, if◌then◌else◌, ◌==◌, ◌⊎◌, inl, inr, ℕ_discrete, eq→==, ne→==,
  ◌≢◌, sym, ◌∙◌, Outcome, ok, panicked, List, [], ◌∷◌, ◌++◌, length,
}
use mmd_os.Process.{Pcb, update, last_of, find_before}

-- The PCBs from `p` on, following `next` to NULL, are those at the addresses `xs`.
abbrev pub Chain : (ℕ → Pcb) → ℕ → List ℕ → Type 0
Chain pcb p [] = p ≡ 0
Chain pcb p (x ∷ xs) = (p ≡ x) × (x ≢ 0) × Chain pcb (pcb x).next xs

abbrev pub NotIn : ℕ → List ℕ → Type 0
NotIn a [] = Unit {0}
NotIn a (x ∷ xs) = (a ≢ x) × NotIn a xs

abbrev pub Distinct : List ℕ → Type 0
Distinct [] = Unit {0}
Distinct (x ∷ xs) = NotIn x xs × Distinct xs

-- A chain is read through the `next` fields alone.
pub Chain-ext :
    (f g : ℕ → Pcb) (p : ℕ) (xs : List ℕ)
    → ((q : ℕ) → (f q).next ≡ (g q).next)
    → Chain f p xs
    → Chain g p xs
Chain-ext f g p [] e c = c
Chain-ext f g p (x ∷ xs) e c = (c.0, c.1, rw (← e x) (Chain-ext f g (f x).next xs e c.2))

-- A write to a PCB that is no member changes no chain.
pub Chain-update :
    (f : ℕ → Pcb) (a : ℕ) (v : Pcb) (p : ℕ) (xs : List ℕ)
    → NotIn a xs
    → Chain f p xs
    → Chain (update f a v) p xs
Chain-update f a v p [] n c = c
Chain-update f a v p (x ∷ xs) n c =
    (c.0, c.1, rw (ne→== a x n.0) (Chain-update f a v (f x).next xs n.1 c.2))

-- The last address of a queue `x ∷ xs`.
abbrev pub last : ℕ → List ℕ → ℕ
last x [] = x
last x (y ∷ ys) = last y ys

pub last-ne : (x y : ℕ) (ys : List ℕ) → NotIn x (y ∷ ys) → last y ys ≢ x
last-ne x y [] h = λ q. h.0 (sym q)
last-ne x y (z ∷ zs) h = last-ne x z zs h.1

pub last_of_lem :
    (fuel : ℕ) (pcb : ℕ → Pcb) (x : ℕ) (xs : List ℕ)
    → length xs < fuel
    → Chain pcb (pcb x).next xs
    → last_of fuel pcb x ≡ ok (last x xs)
unfolding last_of
last_of_lem zero pcb x xs h c = absurd (omega arith)
last_of_lem (suc fuel) pcb x [] h c = rw (eq→== _ 0 c)
last_of_lem (suc fuel) pcb x (y ∷ ys) h c =
    rw (c.0, ne→== y 0 c.1) (last_of_lem fuel pcb y ys (omega arith) c.2)

-- Linking `process` behind the last member appends it.
pub Chain-link :
    (f : ℕ → Pcb) (process p x : ℕ) (xs : List ℕ) (v : Pcb)
    → v.next ≡ process
    → process ≢ 0
    → (f process).next ≡ 0
    → NotIn process (x ∷ xs)
    → Distinct (x ∷ xs)
    → Chain f p (x ∷ xs)
    → Chain (update f (last x xs) v) p ((x ∷ xs) ++ (process ∷ []))
Chain-link f process p x [] v e ne fresh n d c =
    (c.0, c.1, rw (eq→== x x refl) (e, ne, rw (ne→== x process (λ q. n.0 (sym q))) fresh))
Chain-link f process p x (y ∷ ys) v e ne fresh n d c = (
  c.0,
  c.1,
  rw (ne→== (last y ys) x (last-ne x y ys d.0))
      (Chain-link f process (f x).next y ys v e ne fresh n.1 d.1 c.2),
)

abbrev pub IsIn : ℕ → List ℕ → Type 0
IsIn a [] = ⊥
IsIn a (x ∷ xs) = (a ≡ x) ⊎ IsIn a xs

abbrev pub remove : ℕ → List ℕ → List ℕ
remove a [] = []
remove a (x ∷ xs) = if a == x then xs else x ∷ remove a xs

pub NotIn-ne : (a b : ℕ) (xs : List ℕ) → NotIn a xs → IsIn b xs → a ≢ b
NotIn-ne a b [] n m = absurd m
NotIn-ne a b (x ∷ xs) n (inl e) = rw e n.0
NotIn-ne a b (x ∷ xs) n (inr m) = NotIn-ne a b xs n.1 m

pub IsIn-ne_zero : (f : ℕ → Pcb) (p a : ℕ) (xs : List ℕ) → Chain f p xs → IsIn a xs → a ≢ 0
IsIn-ne_zero f p a [] c m = absurd m
IsIn-ne_zero f p a (x ∷ xs) c (inl e) = rw e c.1
IsIn-ne_zero f p a (x ∷ xs) c (inr m) = IsIn-ne_zero f (f x).next a xs c.2 m

-- What comes behind a member is NULL or another member.
pub Chain-next :
    (f : ℕ → Pcb) (p a : ℕ) (xs : List ℕ)
    → Chain f p xs
    → Distinct xs
    → IsIn a xs
    → ((f a).next ≡ 0) ⊎ (IsIn (f a).next xs × ((f a).next ≢ a))
Chain-next f p a [] c d m = absurd m
Chain-next f p a (x ∷ []) c d (inl e) = inl (rw e c.2)
Chain-next f p a (x ∷ y ∷ ys) c d (inl e) =
    rw (e, (c.2).0) (inr (inr (inl refl), λ q. (d.0).0 (sym q)))
Chain-next f p a (x ∷ xs) c d (inr m) = elim (Chain-next f (f x).next a xs c.2 d.1 m) [
  | inl z ↦ inl z
  | inr n ↦ inr (inr n.0, n.1)
]

pub IsIn-remove : (a b : ℕ) (xs : List ℕ) → IsIn b xs → b ≢ a → IsIn b (remove a xs)
IsIn-remove a b [] m ne = m
IsIn-remove a b (x ∷ xs) (inl e) ne = rw (ne→== a x (λ q. ne (e ∙ sym q))) (inl e)
IsIn-remove a b (x ∷ xs) (inr m) ne = elim (ℕ_discrete a x) [
  | yes e ↦ rw (eq→== a x e) m
  | no n ↦ rw (ne→== a x n) (inr (IsIn-remove a b xs m ne))
]

NotIn-remove : (a b : ℕ) (xs : List ℕ) → NotIn b xs → NotIn b (remove a xs)
NotIn-remove a b [] n = n
NotIn-remove a b (x ∷ xs) n = elim (ℕ_discrete a x) [
  | yes e ↦ rw (eq→== a x e) n.1
  | no ne ↦ rw (ne→== a x ne) (n.0, NotIn-remove a b xs n.1)
]

pub Distinct-remove : (a : ℕ) (xs : List ℕ) → Distinct xs → Distinct (remove a xs)
Distinct-remove a [] d = d
Distinct-remove a (x ∷ xs) d = elim (ℕ_discrete a x) [
  | yes e ↦ rw (eq→== a x e) d.1
  | no ne ↦ rw (ne→== a x ne) (NotIn-remove a x xs d.0, Distinct-remove a xs d.1)
]

-- The head of a chain is a member, unless there is none.
pub Chain-head : (f : ℕ → Pcb) (p : ℕ) (xs : List ℕ) → Chain f p xs → (xs ≡ []) ⊎ IsIn p xs
Chain-head f p [] c = inl refl
Chain-head f p (x ∷ xs) c = inr (inl c.0)

-- What `find_before` finds: linking past `process` from there takes it out of the chain.
pub record Before (f : ℕ → Pcb) (process x : ℕ) (xs : List ℕ) (o : Outcome ℕ) : Type 0 where
  pub at : ℕ
  pub result : o ≡ ok at
  pub member : IsIn at (x ∷ xs)
  pub differs : at ≢ process
  pub relinked :
      Chain (update f at (record (f at) { next = (f process).next })) x (remove process (x ∷ xs))

Before-here :
    (f : ℕ → Pcb) (process x : ℕ) (ys : List ℕ)
    → x ≢ 0
    → process ≢ x
    → NotIn x ys
    → Chain f (f process).next ys
    → Before f process x (process ∷ ys) (ok x)
Before-here f process x ys nz ne n c = record {
  at = x;
  result = refl;
  member = inl refl;
  differs = λ q. ne (sym q);
  relinked =
      rw (ne→== process x ne, eq→== process process refl)
        (refl, nz, rw (eq→== x x refl) (Chain-update f x _ (f process).next ys n c));
}

Before-there :
    (f : ℕ → Pcb) (process x y : ℕ) (ys : List ℕ) (o : Outcome ℕ)
    → x ≢ 0
    → process ≢ x
    → (f x).next ≡ y
    → NotIn x (y ∷ ys)
    → Before f process y ys o
    → Before f process x (y ∷ ys) o
Before-there f process x y ys o nz ne link n b = record {
  at = b.at;
  result = b.result;
  member = inr b.member;
  differs = b.differs;
  relinked = rw (ne→== process x ne) (
    refl,
    nz,
    rw (ne→== b.at x (λ q. NotIn-ne x b.at (y ∷ ys) n b.member (sym q)), link) b.relinked,
  );
}

pub find_before_lem :
    (fuel : ℕ) (f : ℕ → Pcb) (process x : ℕ) (xs : List ℕ)
    → length xs < fuel
    → x ≢ 0
    → process ≢ x
    → Chain f (f x).next xs
    → NotIn x xs
    → Distinct xs
    → IsIn process xs
    → Before f process x xs (find_before fuel f process x)
unfolding find_before
find_before_lem zero f process x xs h nz ne c n d m = absurd (omega arith)
find_before_lem (suc fuel) f process x [] h nz ne c n d m = absurd m
find_before_lem (suc fuel) f process x (y ∷ ys) h nz ne c n d m =
    rw (ne→== x 0 nz) (elim (ℕ_discrete process y) [
      | yes e ↦
          rw (c.0, ← e, eq→== process process refl)
            (Before-here f process x ys nz ne n.1 (rw e c.2))
      | no ny ↦
          rw (c.0, ne→== y process (λ q. ny (sym q)))
            (Before-there f process x y ys (find_before fuel f process y) nz ne c.0 n
              (find_before_lem fuel f process y ys (omega arith) c.1 ny c.2 d.0 d.1 (tail_of m ny)))
    ])
  where
    tail_of : IsIn process (y ∷ ys) → process ≢ y → IsIn process ys
    tail_of (inl q) ny = absurd (ny q)
    tail_of (inr q) ny = q

-- With `process` in no link of the queue the scan ends in a panic.
pub find_before_missing :
    (fuel : ℕ) (f : ℕ → Pcb) (process p : ℕ) (xs : List ℕ)
    → length xs < fuel
    → process ≢ 0
    → Chain f p xs
    → NotIn process xs
    → find_before fuel f process p ≡ panicked
unfolding find_before
find_before_missing zero f process p xs h nz c n = absurd (omega arith)
find_before_missing (suc fuel) f process p [] h nz c n = rw c
find_before_missing (suc fuel) f process p (x ∷ []) h nz c n =
    rw (c.0, ne→== x 0 c.1, c.2, ne→== 0 process (λ q. nz (sym q)))
      (find_before_missing fuel f process 0 [] (omega arith) nz refl tt)
find_before_missing (suc fuel) f process p (x ∷ y ∷ ys) h nz c n =
    rw (c.0, ne→== x 0 c.1, (c.2).0, ne→== y process (λ q. (n.1).0 (sym q)))
      (find_before_missing fuel f process y (y ∷ ys) (omega arith) nz (refl, (c.2).1, (c.2).2) n.1)
