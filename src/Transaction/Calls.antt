-- ===== src/Transaction/Calls.antt =====
-- The public calls on an `AsyncIOTransaction`, and sequences of them.
use edgedb_python.Prelude.{Bool, List, [], ◌∷◌}
use edgedb_python.Connection.{Env}
use edgedb_python.Transaction.{Transaction, Action, start, commit, rollback, enter, exit}

pub data Call : Type 0 where
  starts commits rolls_back enters : Call
  exits : Bool → Call

module _ {W : Type 0} (env : Env W) where
  unfoldable pub run_call : Call → Action W
  run_call starts = start env
  run_call commits = commit env
  run_call rolls_back = rollback env
  run_call enters = enter (start env)
  run_call (exits failing) = exit env failing

  -- The caller goes on after an exception.
  unfoldable pub run_calls : List Call → Transaction W → Transaction W
  run_calls [] t = t
  run_calls (c ∷ cs) t = run_calls cs (run_call c t).1
