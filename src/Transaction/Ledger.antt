-- ===== src/Transaction/Ledger.antt =====
-- The connections that a transaction over a pool takes and gives back, whatever the pool does.
use edgedb_python.Prelude.{◌+◌, ◌≤◌, ◌≡◌, ◌∙◌, Bool, List, Option, arith, String}
use edgedb_python.Errors.Raise.{Exception, ok, raised}
use edgedb_python.Connection.{Env, BorrowReason}
use edgedb_python.Transaction.{
  TransactionState, new_state, started, committed, rolledback, Transaction, pool, make_start_query,
  make_commit_query, make_rollback_query, send_start, start_on, start_with, give_back, settle,
  commit_query, rollback_query, start, exit,
}
use edgedb_python.Transaction.Calls.{Call, run_calls}
use edgedb_python.Transaction.Metered.{
  Metered, metered, taken_by, given_by, start-taken, start-raised, run_calls-Covered,
}

module _ {W : Type 0} (env : Env W) where
  -- A new transaction over a pool whose start raises after the pool gave it a connection, for whatever
  -- reason, never makes up for this connection: whatever is called on it later, since before that
  -- start it has called `acquire` with success more often than `release`.
  pub failed_start_leaks :
      (cs : List Call) (t : Transaction (Metered W)) (b : Option BorrowReason) (e : Exception)
      → t.owner ≡ pool
      → t.state ≡ new_state
      → (env.acquire t.world.world).0 ≡ ok b
      → (start (metered env) t).0 ≡ raised e
      → taken_by t + given_by (run_calls (metered env) cs (start (metered env) t).1) + 1
        ≤ given_by t + taken_by (run_calls (metered env) cs (start (metered env) t).1)
  failed_start_leaks cs t b e o s h f =
      let (k, l, m) = start-taken env t b o s h in
      let u = start-raised env t e s f in
      let (_, c) =
        run_calls-Covered env (taken_by t + 1) (given_by t) cs (start (metered env) t).1
          (m ∙ o, omega (arith, k, l, u)) in
      omega (arith, c)

  start-started :
      (t : Transaction (Metered W))
      → t.state ≡ new_state
      → (start (metered env) t).0 ≡ ok tt
      → (start (metered env) t).1.state ≡ started
  unfolding metered start start_with start_on send_start
  start-started t s h = ground arith

  start-acquired :
      (t : Transaction (Metered W))
      → t.owner ≡ pool
      → t.state ≡ new_state
      → (start (metered env) t).0 ≡ ok tt
      → (b : Option BorrowReason) × ((env.acquire t.world.world).0 ≡ ok b)
  unfolding metered start start_with make_start_query
  start-acquired t o s h = ground arith

  settle-given :
      (query : String) (target : TransactionState) (t : Transaction (Metered W))
      → t.owner ≡ pool
      → (taken_by (settle (metered env) query target t).1 ≡ taken_by t)
        × (given_by (settle (metered env) query target t).1 ≡ given_by t + 1)
  unfolding metered settle give_back
  settle-given query target t o = ground arith

  exit-given :
      (failing : Bool) (t : Transaction (Metered W))
      → t.owner ≡ pool
      → t.state ≡ started
      → (taken_by (exit (metered env) failing t).1 ≡ taken_by t)
        × (given_by (exit (metered env) failing t).1 ≡ given_by t + 1)
  unfolding exit commit_query rollback_query make_commit_query make_rollback_query
  exit-given failing t o s =
      ground (arith, settle-given "COMMIT;" committed t o, settle-given "ROLLBACK;" rolledback t o)

  -- A new transaction over a pool that starts, and then leaves its block with or without an exception,
  -- has taken exactly one connection, and has called the pool's `release` exactly once, whether the
  -- final query and the release succeed or fail. What `release` then does is the pool's part.
  pub block_returns_connection :
      (failing : Bool) (t : Transaction (Metered W))
      → t.owner ≡ pool
      → t.state ≡ new_state
      → (start (metered env) t).0 ≡ ok tt
      → (taken_by (exit (metered env) failing (start (metered env) t).1).1 ≡ taken_by t + 1)
        × (given_by (exit (metered env) failing (start (metered env) t).1).1 ≡ given_by t + 1)
  block_returns_connection failing t o s h =
      let (b, q) = start-acquired t o s h in
      let (k, l, m) = start-taken env t b o s q in
      let (k', l') = exit-given failing (start (metered env) t).1 (m ∙ o) (start-started t s h) in
      (omega (arith, k, k'), omega (arith, l, l'))
