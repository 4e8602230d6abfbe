-- ===== src/Tests/Transactions.antt =====
-- Transactions in the small world.
use edgedb_python.Prelude.{◌≤◌, ◌+◌, ◌≡◌, refl, inl, true, false, [], ◌∷◌, none, some}
use edgedb_python.Options.{start_transaction_query}
use edgedb_python.Connection.{transaction, ensure_connected}
use edgedb_python.Transaction
use edgedb_python.Transaction.{
  Transaction, new_state, started, committed, failed, make_start_query, make_commit_query,
  send_start, start_on, start_with, give_back, settle, commit_query, rollback_query, start, commit,
  exit, enter,
}
use edgedb_python.Transaction.Calls.{
  starts, commits, rolls_back, enters, exits, run_call, run_calls,
}
use edgedb_python.Transaction.States.{Move, IsRefused, run_call-Move, over_refuses}
use edgedb_python.Transaction.Borrow.{IsBorrowing, run_calls-IsBorrowing}
use edgedb_python.Transaction.Metered.{Metered, metered, taken_by, given_by}
use edgedb_python.Transaction.Ledger.{failed_start_leaks, block_returns_connection}
use edgedb_python.Transaction.Blocking
use edgedb_python.Tests.World.{World, env, conflict, quiet, broken, pooled, direct}

program : Unit {0}
unfolding make_start_query make_commit_query send_start start_on start_with give_back settle
    commit_query rollback_query start commit exit enter run_call run_calls ensure_connected
    start_transaction_query
program = tt

abbrev done : Transaction World
done = record (pooled quiet) { state = committed; attached = true }

abbrev borrowed : Transaction World
borrowed = record (direct quiet) { borrowed_for = some transaction }

run_call-Move_example : Move new_state (run_call env starts (pooled quiet)).1.state
run_call-Move_example = run_call-Move env starts (pooled quiet)

over_refuses_example : IsRefused env commits done
over_refuses_example = over_refuses env commits done (inl refl)

run_calls-IsBorrowing_example :
    IsBorrowing (run_calls env (enters ∷ exits false ∷ []) (pooled quiet))
run_calls-IsBorrowing_example =
    run_calls-IsBorrowing env (enters ∷ exits false ∷ []) (pooled quiet) refl

-- A block over a pool: two queries are sent, and the connection is back.
block_run : run_calls env (enters ∷ exits false ∷ []) (pooled quiet) ≡ record done {
  world = record quiet {
    sent =
        "COMMIT;" ∷ "START TRANSACTION ISOLATION REPEATABLE READ, READ WRITE, NOT DEFERRABLE;" ∷ [];
  };
}
unfolding program
block_run = refl

-- Nothing is counted yet.
abbrev fresh : World → Transaction (Metered World)
fresh w = pooled (record { world = w; taken = 0; given = 0 })

failed_start_leaks_example :
    0
      + given_by (
          run_calls
            (metered env)
            (rolls_back ∷ commits ∷ [])
            (start (metered env) (fresh broken)).1)
      + 1
    ≤ 0
      + taken_by (
          run_calls
            (metered env)
            (rolls_back ∷ commits ∷ [])
            (start (metered env) (fresh broken)).1)
unfolding program metered
failed_start_leaks_example =
    failed_start_leaks env (rolls_back ∷ commits ∷ []) (fresh broken) none conflict refl refl refl
      refl

block_returns_connection_example :
    (taken_by (exit (metered env) true (start (metered env) (fresh quiet)).1).1 ≡ 0 + 1)
    × (given_by (exit (metered env) true (start (metered env) (fresh quiet)).1).1 ≡ 0 + 1)
unfolding program metered
block_returns_connection_example = block_returns_connection env true (fresh quiet) refl refl refl

start_with-eq_example :
    Blocking.start_with env true (direct quiet) ≡ Transaction.start_with env true (direct quiet)
start_with-eq_example = Blocking.start_with-eq env true (direct quiet) refl refl
