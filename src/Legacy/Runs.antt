-- ===== src/Legacy/Runs.antt =====
-- Runs of the transactions of one connection: sequences of calls, in any order.
use edgedb_python.Prelude.{ℕ, ◌+◌, String, Bool, nat_eq, List, [], ◌∷◌}
use edgedb_python.Connection.{Env}
use edgedb_python.Legacy.{Store}
use edgedb_python.Legacy.Calls.{start, commit, rollback, enter, exit}

-- A call on the transaction of this number, or that many savepoints named by other connections.
pub data Call : Type 0 where
  starts commits rolls_back enters elsewhere : ℕ → Call
  exits : Bool → ℕ → Call

module _ {W : Type 0} (env : Env W) (block : String) where
  unfoldable pub call : Call → Store W → Store W
  unfolding start commit rollback enter exit
  call (starts x) s = (start env x s).1
  call (commits x) s = (commit env block x s).1
  call (rolls_back x) s = (rollback env block x s).1
  call (enters x) s = (enter env block x s).1
  call (exits failing x) s = (exit env block failing x s).1
  call (elsewhere n) s = record s { counter = s.counter + n }

  unfoldable pub run : List Call → Store W → Store W
  unfolding call
  run [] s = s
  run (c ∷ cs) s = run cs (call c s)
