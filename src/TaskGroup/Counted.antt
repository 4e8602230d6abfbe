-- ===== src/TaskGroup/Counted.antt =====
-- The number of unfinished tasks, and the future that the end of the block waits for.
use edgedb_python.Prelude.{
  ℕ, zero, suc, ◌<◌, ◌≡◌, ◌≢◌, ◌⊎◌, refl, ap, ◌∙◌, ◌==◌, nat_eq, Bool, true, false, ◌&&◌, List, [],
  ◌∷◌, ◌++◌, Option, some, get_elem?, set, arith, inl, inr,
}
use edgedb_python.TaskGroup.{
  Outcome, Task, running, done, reported, Future, pending, resolved, withdrawn, Stage, outside,
  inside, waiting, ended, Frame, Store, cancel_waiter, cancel_parent,
}

-- The tasks whose callback has not run.
unfoldable pub open_tasks : List Task → ℕ
open_tasks [] = 0
open_tasks (reported o ∷ ts) = open_tasks ts
open_tasks (_ ∷ ts) = suc (open_tasks ts)

pub open_tasks-append : (ts : List Task) → open_tasks (ts ++ running ∷ []) ≡ suc (open_tasks ts)
unfolding open_tasks
open_tasks-append [] = refl
open_tasks-append (reported o ∷ ts) = open_tasks-append ts
open_tasks-append (running ∷ ts) = ap suc (open_tasks-append ts)
open_tasks-append (done o ∷ ts) = ap suc (open_tasks-append ts)

pub open_tasks-finished :
    (ts : List Task) (i : ℕ) (o : Outcome)
    → get_elem? ts i ≡ some running
    → open_tasks (set ts i (done o)) ≡ open_tasks ts
unfolding open_tasks
open_tasks-finished [] i o e = refl
open_tasks-finished (t ∷ ts) zero o e = let same : t ≡ running = cc e in rw same refl
open_tasks-finished (reported x ∷ ts) (suc i) o e = open_tasks-finished ts i o e
open_tasks-finished (running ∷ ts) (suc i) o e = ap suc (open_tasks-finished ts i o e)
open_tasks-finished (done x ∷ ts) (suc i) o e = ap suc (open_tasks-finished ts i o e)

pub open_tasks-reported :
    (ts : List Task) (i : ℕ) (o : Outcome)
    → get_elem? ts i ≡ some (done o)
    → suc (open_tasks (set ts i (reported o))) ≡ open_tasks ts
unfolding open_tasks
open_tasks-reported [] i o e = absurd (cc e)
open_tasks-reported (t ∷ ts) zero o e = let same : t ≡ done o = cc e in rw same refl
open_tasks-reported (reported x ∷ ts) (suc i) o e = open_tasks-reported ts i o e
open_tasks-reported (running ∷ ts) (suc i) o e = ap suc (open_tasks-reported ts i o e)
open_tasks-reported (done x ∷ ts) (suc i) o e = ap suc (open_tasks-reported ts i o e)

pub Stage-cases :
    (t : Stage)
    → (t ≡ outside) ⊎ (t ≡ inside) ⊎ ((f : Frame) × (t ≡ waiting f)) ⊎ ((e : _) × (t ≡ ended e))
Stage-cases outside = inl refl
Stage-cases inside = inr (inl refl)
Stage-cases (waiting f) = inr (inr (inl (f, refl)))
Stage-cases (ended e) = inr (inr (inr (e, refl)))

pub Future-cases : (x : Future) → (x ≡ pending) ⊎ (x ≡ resolved) ⊎ (x ≡ withdrawn)
Future-cases pending = inl refl
Future-cases resolved = inr (inl refl)
Future-cases withdrawn = inr (inr refl)

-- What holds at each place of the block. While the parent waits for a future that is not resolved,
-- some task is unfinished.
abbrev pub At : Stage → Bool → Bool → Option Future → ℕ → Type 0
At outside entered exiting fut n = (entered ≡ false) × (exiting ≡ false)
At inside entered exiting fut n = (entered ≡ true) × (exiting ≡ false)
At (waiting f) entered exiting fut n =
    (entered ≡ true) × (exiting ≡ true) × ((x : Future) × (fut ≡ some x) × (x ≡ pending → 0 < n))
At (ended e) entered exiting fut n = (entered ≡ true) × (exiting ≡ true) × (n ≡ 0)

abbrev pub Counted : Store → Type 0
Counted s =
    (s.unfinished_tasks ≡ open_tasks s.tasks)
    × At s.stage s.entered s.exiting s.on_completed_fut s.unfinished_tasks

pub place_with_more :
    (t : Stage) (en ex : Bool) (fut : Option Future) (n : ℕ)
    → (ex && n == 0) ≡ false
    → At t en ex fut (suc n)
    → At t en ex fut n
place_with_more outside en ex fut n e h = h
place_with_more inside en ex fut n e h = h
place_with_more (waiting f) en ex fut n e (h, busy, (x, there, more)) =
    (h, busy, (x, there, λ p. ground (arith, e, busy)))
place_with_more (ended o) en ex fut n e (h, busy, z) = absurd (omega (arith, z))

pub resolves_last :
    (t : Stage) (en ex : Bool) (fut : Option Future) (n : ℕ)
    → (ex && n == 0) ≡ true
    → At t en ex fut (suc n)
    → (x : Future) × (fut ≡ some x) × ((y : Future) → y ≢ pending → At t en ex (some y) n)
resolves_last outside en ex fut n e (h, idle) = absurd (ground (arith, e, idle))
resolves_last inside en ex fut n e (h, idle) = absurd (ground (arith, e, idle))
resolves_last (waiting f) en ex fut n e (h, busy, (x, there, more)) =
    (x, there, λ y other. (h, busy, (y, refl, λ p. absurd (other p))))
resolves_last (ended o) en ex fut n e (h, busy, z) = absurd (omega (arith, z))

-- What holds in `__aexit__` while the parent does not wait.
abbrev pub Exits : Store → Type 0
Exits s = (s.entered ≡ true) × (s.exiting ≡ true) × (s.unfinished_tasks ≡ open_tasks s.tasks)

cancel_waiter-Counted :
    (s : Store) (f : Frame) → s.stage ≡ waiting f → Counted s → Counted (cancel_waiter s)
unfolding cancel_waiter
cancel_waiter-Counted s f e (c, h) =
    let (en, ex, (x, there, more)) = rw e at h in
    elim (Future-cases x) [
      | inl p ↦
          let there' : s.on_completed_fut ≡ some pending = there ∙ ap (λ x. some x) p in
          rw (there', cancel_waiter) (c, rw e (en, ex, (withdrawn, refl, λ q. absurd (cc q))))
      | inr (inl p) ↦
          let there' : s.on_completed_fut ≡ some resolved = there ∙ ap (λ x. some x) p in
          rw (there', cancel_waiter) (c, h)
      | inr (inr p) ↦
          let there' : s.on_completed_fut ≡ some withdrawn = there ∙ ap (λ x. some x) p in
          rw (there', cancel_waiter) (c, h)
    ]

pub cancel_parent-Counted : (s : Store) → Counted s → Counted (cancel_parent s)
unfolding cancel_parent
cancel_parent-Counted s (c, h) =
    let s' : Store = record s { parent = record s.parent { cancel_requested = true } } in
    elim (Stage-cases s.stage) [
      | inl e ↦ rw (e, cancel_parent) (c, h)
      | inr (inl e) ↦ rw (e, cancel_parent) (c, h)
      | inr (inr (inl (f, e))) ↦ rw (e, cancel_parent) (cancel_waiter-Counted s' f e (c, h))
      | inr (inr (inr (x, e))) ↦ rw (e, cancel_parent) (c, h)
    ]
