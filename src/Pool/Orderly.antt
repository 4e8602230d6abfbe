-- ===== src/Pool/Orderly.antt =====
-- Runs of a pool in which no connection is released or closed while it is borrowed.
use edgedb_python.Prelude.{
  ℕ, ◌≡◌, refl, Bool, true, false, ◌&&◌, nat_eq, List, [], ◌∷◌, Option, none, some, if◌then◌else◌,
  arith,
}
use edgedb_python.Errors.Raise.{Exception}
use edgedb_python.Pool.{Pool, has}
use edgedb_python.Pool.Closing.{new_pool, start}
use edgedb_python.Pool.Runs.{
  Event, acquires, wakes, expires, terminates, begins_close, ends_close, connects, prepares,
  releases, closes, drops, returns, borrows, resumes, step, run, is_none,
}
use edgedb_python.Pool.Kept.{Kept, lent_by, lent_at, close_connection-Kept}
use edgedb_python.Pool.Lossless.{
  lent_to, acquire-Kept, wake-Kept, connect-Kept, prepare-Kept, release-Kept, resume-Kept,
}
use edgedb_python.Pool.Started.{start-Kept}
use edgedb_python.Pool.Shut.{AllIdle, terminate-Kept, begin_close-Kept, end_close-Kept}

-- The event does not release, close or terminate a connection that is borrowed, and it does not
-- hand out a holder without a connection.
abbrev pub IsOrderly : Event → Pool → Type 0
IsOrderly (prepares h o) p = (elim o [ none ↦ is_none (p.con h) | some e ↦ lent_at p h ]) ≡ false
IsOrderly (closes c) p = lent_by p c ≡ false
IsOrderly (resumes o) p = (elim p.releasing [ [] ↦ false | r ∷ rest ↦ lent_to p r o ]) ≡ false
IsOrderly terminates p = AllIdle p
IsOrderly ends_close p = AllIdle p
IsOrderly e p = Unit

-- Each event of the run is orderly where it happens.
abbrev pub AreOrderly : List Event → Pool → Type 0
AreOrderly [] p = Unit
AreOrderly (e ∷ es) p = IsOrderly e p × AreOrderly es (step e p)

if_has-Kept : (b : Bool) (q p : Pool) → (b ≡ true → Kept q) → Kept p → Kept (if b then q else p)
if_has-Kept true q p v w = v refl
if_has-Kept false q p v w = w

step-Kept : (e : Event) (p : Pool) → IsOrderly e p → Kept p → Kept (step e p)
unfolding step
step-Kept acquires p o v = acquire-Kept p v
step-Kept wakes p o v = wake-Kept p v
step-Kept expires p o v = v
step-Kept terminates p o v = terminate-Kept p o v
step-Kept begins_close p o v = begin_close-Kept p v
step-Kept ends_close p o v = end_close-Kept p o v
step-Kept (connects h r) p o v =
    if_has-Kept (has h p.acquiring && is_none (p.con h)) _ p
      (λ m. connect-Kept h r p (ground arith) v) v
step-Kept (prepares h r) p o v =
    if_has-Kept (has h p.acquiring) _ p (λ m. prepare-Kept h r p m o v) v
step-Kept (releases c) p o v = release-Kept c p v
step-Kept (closes c) p o v = close_connection-Kept c p o v
step-Kept (drops c) p o v = v
step-Kept (borrows c r) p o v = v
step-Kept (returns c) p o v = v
step-Kept (resumes r) p o v = resume-Kept r p o v

run-Kept : (es : List Event) (p : Pool) → AreOrderly es p → Kept p → Kept (run es p)
unfolding run
run-Kept [] p o v = v
run-Kept (e ∷ es) p (o, os) v = run-Kept es (step e p) os (step-Kept e p o v)

-- Once a pool of `n` holders is started, however the network answers, and while no event releases,
-- closes or terminates a connection that is borrowed, nor hands out a holder without a connection:
-- each holder of the pool is at exactly one place, in the queue, with one task that acquires it, or
-- in use; these places are `n` together; and a holder in use has a connection.
pub run-start-Kept :
    (answers : ℕ → Option Exception) (minsize n : ℕ) (es : List Event)
    → AreOrderly es (start answers minsize (new_pool n)).1
    → Kept (run es (start answers minsize (new_pool n)).1)
run-start-Kept answers minsize n es orderly =
    run-Kept es (start answers minsize (new_pool n)).1 orderly (start-Kept answers minsize n)
