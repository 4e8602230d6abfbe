-- ===== src/Tests/Pool.antt =====
-- Runs of a pool of two holders, one of them connected at the start.
use edgedb_python.Prelude.{ℕ, ◌≤◌, ◌≡◌, refl, true, false, List, [], ◌∷◌, Option, none, arith}
use edgedb_python.Prelude.Int.{pos, negsuc}
use edgedb_python.Errors.Raise.{Exception, raised}
use edgedb_python.Connection.{transaction}
use edgedb_python.Pool.{Pool, has, attach, release_holder}
use edgedb_python.Pool.Events.{
  acquire, resume, release, check_init, enter_acquire, check_generation, prepare, connect,
}
use edgedb_python.Pool.Closing.{new_pool, init, start}
use edgedb_python.Pool.Runs.{
  Event, acquires, expires, connects, prepares, releases, borrows, returns, resumes, step, run,
}
use edgedb_python.Pool.Places.{places}
use edgedb_python.Pool.Exclusive.{run-start-places}
use edgedb_python.Pool.Kept.{Kept}
use edgedb_python.Pool.Orderly.{AreOrderly, run-start-Kept}
use edgedb_python.Pool.Expired.{expired_acquire, timeout_refused}

abbrev answers : ℕ → Option Exception
answers h = none

abbrev started : Pool
started = (start answers 1 (new_pool 2)).1

-- The connected holder is acquired, its connection borrowed and given back, and released.
abbrev used_once : List Event
used_once =
    acquires ∷ prepares 1 none ∷ borrows 0 transaction ∷ returns 0 ∷ releases 0 ∷ resumes none ∷ []

-- Both holders are acquired; the second one connects first.
abbrev both : List Event
both = acquires ∷ prepares 1 none ∷ acquires ∷ connects 0 none ∷ prepares 0 none ∷ []

queue_of_started : started.queue ≡ 1 ∷ 0 ∷ []
unfolding start new_pool attach
queue_of_started = refl

queue_of_used_once : (run used_once started).queue ≡ 1 ∷ 0 ∷ []
unfolding run resume release has acquire check_init enter_acquire check_generation prepare
    release_holder start new_pool attach
queue_of_used_once = refl

queue_of_both : (run both started).queue ≡ []
unfolding run has acquire check_init enter_acquire check_generation prepare connect start new_pool
    attach
queue_of_both = refl

init_refuses : (m : ℕ) → init (pos 2) (negsuc m) true ≡ init (pos 2) (negsuc m) false
unfolding init
init_refuses m = refl

run-start-places_example : places (run both started) 1 ≤ 1
run-start-places_example = run-start-places answers 1 2 1 both

used_once-AreOrderly : AreOrderly used_once started
unfolding run resume release has acquire check_init enter_acquire check_generation prepare
    release_holder start new_pool attach
used_once-AreOrderly = (tt, (refl, (tt, (tt, (tt, (refl, tt))))))

run-start-Kept_example : Kept (run used_once started)
run-start-Kept_example = run-start-Kept answers 1 2 used_once used_once-AreOrderly

expired_acquire_example :
    acquire (step expires started) ≡ (raised timeout_refused, step expires started)
unfolding start new_pool attach
expired_acquire_example =
    expired_acquire 1 0 (0 ∷ []) started refl refl refl refl (omega arith) refl refl refl
