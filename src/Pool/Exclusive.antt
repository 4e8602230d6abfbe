-- ===== src/Pool/Exclusive.antt =====
-- No holder is handed out twice.
use edgedb_python.Prelude.{
  ℕ, zero, suc, ◌+◌, ◌-◌, ◌∙◌, ◌≤◌, ◌≡◌, refl, true, ltb, nat_eq, List, [], ◌∷◌, Option,
  if◌then◌else◌, arith,
}
use edgedb_python.Errors.Raise.{Exception}
use edgedb_python.Pool.{Pool, put, attach}
use edgedb_python.Pool.Closing.{
  new_pool, fill, connect_first, connect_more, initialize, start_up, start,
}
use edgedb_python.Pool.Runs.{
  Event, acquires, wakes, expires, terminates, begins_close, ends_close, connects, prepares,
  releases, closes, drops, returns, borrows, resumes, step, run,
}
use edgedb_python.Pool.Places.{
  places, acquire-places, wake-places, terminate-places, begin_close-places, end_close-places,
  connect-places, prepare-places, release-places, close_connection-places, resume-places,
}

-- The places that a holder may have: one, if it is a holder of the pool.
abbrev pub allowed : ℕ → ℕ → ℕ
allowed maxsize k = if ltb k maxsize then 1 else 0

pub step-places : (e : Event) (k : ℕ) (p : Pool) → places (step e p) k ≤ places p k
unfolding step
step-places acquires k p = acquire-places k p
step-places wakes k p = wake-places k p
step-places expires k p = omega arith
step-places terminates k p = terminate-places k p
step-places begins_close k p = begin_close-places k p
step-places ends_close k p = end_close-places k p
step-places (connects h o) k p = ground (arith, connect-places h k o p)
step-places (prepares h o) k p = ground (arith, prepare-places h k o p)
step-places (releases c) k p = release-places c k p
step-places (closes c) k p = close_connection-places c k p
step-places (drops c) k p = omega arith
step-places (borrows c r) k p = omega arith
step-places (returns c) k p = omega arith
step-places (resumes o) k p = resume-places k o p

run-places : (es : List Event) (k : ℕ) (p : Pool) → places (run es p) k ≤ places p k
unfolding run
run-places [] k p = omega arith
run-places (e ∷ es) k p = omega (arith, step-places e k p, run-places es k (step e p))

fill-places : (n k : ℕ) (p : Pool) → places (fill n p).1 k ≤ places p k + allowed n k
unfolding fill put
fill-places zero k p = ground arith
fill-places (suc n) k p = ground (arith, fill-places n k p)

connect_first-places :
    (answers : ℕ → Option Exception) (h k : ℕ) (p : Pool)
    → places (connect_first answers h p).1 k ≡ places p k
unfolding connect_first attach
connect_first-places answers h k p = ground arith

connect_more-places :
    (answers : ℕ → Option Exception) (n h k : ℕ) (p : Pool)
    → places (connect_more answers n h p).1 k ≡ places p k
unfolding connect_more
connect_more-places answers zero h k p = refl
connect_more-places answers (suc n) zero k p = refl
connect_more-places answers (suc n) (suc h) k p =
    connect_more-places answers n h k (connect_first answers h p).1
    ∙ connect_first-places answers h k p

initialize-places :
    (answers : ℕ → Option Exception) (minsize k : ℕ) (p : Pool)
    → places (initialize answers minsize p).1 k ≡ places p k
unfolding initialize
initialize-places answers zero k p = refl
initialize-places answers (suc more) k p =
    let first = connect_first-places answers (p.maxsize - 1) k p in
    ground (
      arith,
      connect_more-places answers more (p.maxsize - 1) k
          (connect_first answers (p.maxsize - 1) p).1,
    )

start_up-places :
    (answers : ℕ → Option Exception) (minsize k : ℕ) (p : Pool)
    → places (start_up answers minsize p).1 k ≤ places p k + allowed p.maxsize k
unfolding start_up
start_up-places answers minsize k p =
    let begun : Pool = record p { initializing = true } in
    let filled = fill-places p.maxsize k begun in
    ground (arith, initialize-places answers minsize k (fill p.maxsize begun).1)

-- Once a pool of `n` holders is started, however the network answers, and whatever calls, answers
-- and changes of connections follow: a holder of the pool is at one place at most, in the queue,
-- with one task that acquires it, or in use; and no other number is at any place.
pub run-start-places :
    (answers : ℕ → Option Exception) (minsize n k : ℕ) (es : List Event)
    → places (run es (start answers minsize (new_pool n)).1) k ≤ allowed n k
unfolding start new_pool
run-start-places answers minsize n k es = omega (
  arith,
  run-places es k (start_up answers minsize (new_pool n)).1,
  start_up-places answers minsize k (new_pool n),
)
