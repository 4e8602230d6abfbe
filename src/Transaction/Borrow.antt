-- ===== src/Transaction/Borrow.antt =====
-- How long a transaction borrows its connection.
use edgedb_python.Prelude.{◌≡◌, refl, inl, inr, Bool, true, false, List, [], ◌∷◌, none, some, arith}
use edgedb_python.Connection.{Env, transaction}
use edgedb_python.Transaction.{
  TransactionState, new_state, started, committed, rolledback, Transaction, Action,
  make_start_query, make_commit_query, make_rollback_query, send_start, start_on, start_with,
  give_back, settle, commit_query, rollback_query, start, commit, rollback, enter, exit,
}
use edgedb_python.Transaction.Calls.{
  Call, starts, commits, rolls_back, enters, exits, run_call, run_calls,
}
use edgedb_python.Transaction.States.{IsOver}

-- The connection is borrowed while the transaction runs, and free once it is over.
pub record IsBorrowing {W : Type 0} (t : Transaction W) : Type 0 where
  pub running : t.state ≡ started → t.borrowed_for ≡ some transaction
  pub over : IsOver t.state → t.borrowed_for ≡ none

module _ {W : Type 0} (env : Env W) where
  start_with-IsBorrowing :
      (single : Bool) (t : Transaction W) → IsBorrowing t → IsBorrowing (start_with env single t).1
  unfolding start_with start_on send_start make_start_query
  start_with-IsBorrowing single t v = record {
    running = λ h. ground (arith, v.running);
    over = λ h. ground (arith, v.over);
  }

  settle-IsBorrowing :
      (query : _) (target : TransactionState) (t : Transaction W)
      → IsOver target
      → IsBorrowing (settle env query target t).1
  unfolding settle give_back
  settle-IsBorrowing query target t o = record {
    running = λ h. ground arith;
    over = λ h. ground arith;
  }

  commit_query-IsBorrowing :
      (t : Transaction W) → IsBorrowing t → IsBorrowing (commit_query env t).1
  unfolding commit_query make_commit_query
  commit_query-IsBorrowing t v =
      let k = settle-IsBorrowing "COMMIT;" committed t (inl refl) in
      record {
        running = λ h. ground (arith, v.running, k.running);
        over = λ h. ground (arith, v.over, k.over);
      }

  rollback_query-IsBorrowing :
      (t : Transaction W) → IsBorrowing t → IsBorrowing (rollback_query env t).1
  unfolding rollback_query make_rollback_query
  rollback_query-IsBorrowing t v =
      let k = settle-IsBorrowing "ROLLBACK;" rolledback t (inr (inl refl)) in
      record {
        running = λ h. ground (arith, v.running, k.running);
        over = λ h. ground (arith, v.over, k.over);
      }

  enter-IsBorrowing :
      (begin : Action W) (t : Transaction W)
      → IsBorrowing t
      → ((u : Transaction W) → IsBorrowing u → IsBorrowing (begin u).1)
      → IsBorrowing (enter begin t).1
  unfolding enter
  enter-IsBorrowing begin t v keep =
      let k = keep (record t { managed = true }) (record { running = v.running; over = v.over }) in
      record {
        running = λ h. ground (arith, v.running, k.running);
        over = λ h. ground (arith, v.over, k.over);
      }

  run_call-IsBorrowing :
      (c : Call) (t : Transaction W) → IsBorrowing t → IsBorrowing (run_call env c t).1
  unfolding run_call start commit rollback exit
  run_call-IsBorrowing starts t v = start_with-IsBorrowing false t v
  run_call-IsBorrowing commits t v = record {
    running = λ h. ground (arith, v.running, (commit_query-IsBorrowing t v).running);
    over = λ h. ground (arith, v.over, (commit_query-IsBorrowing t v).over);
  }
  run_call-IsBorrowing rolls_back t v = record {
    running = λ h. ground (arith, v.running, (rollback_query-IsBorrowing t v).running);
    over = λ h. ground (arith, v.over, (rollback_query-IsBorrowing t v).over);
  }
  run_call-IsBorrowing enters t v =
      enter-IsBorrowing (start_with env false) t v (start_with-IsBorrowing false)
  run_call-IsBorrowing (exits true) t v =
      let k = rollback_query-IsBorrowing t v in record { running = k.running; over = k.over }
  run_call-IsBorrowing (exits false) t v =
      let k = commit_query-IsBorrowing t v in record { running = k.running; over = k.over }

  keeps_IsBorrowing :
      (cs : List Call) (t : Transaction W) → IsBorrowing t → IsBorrowing (run_calls env cs t)
  unfolding run_calls
  keeps_IsBorrowing [] t v = v
  keeps_IsBorrowing (c ∷ cs) t v =
      keeps_IsBorrowing cs (run_call env c t).1 (run_call-IsBorrowing c t v)

  -- From a new transaction on, through any sequence of calls and any answers of the server: while
  -- the transaction is started its connection is borrowed for it, and once it is committed, rolled
  -- back or failed the connection is free.
  pub run_calls-IsBorrowing :
      (cs : List Call) (t : Transaction W) → t.state ≡ new_state → IsBorrowing (run_calls env cs t)
  run_calls-IsBorrowing cs t h =
      keeps_IsBorrowing cs t (record { running = λ e. ground arith; over = λ e. ground arith })
