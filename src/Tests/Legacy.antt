-- ===== src/Tests/Legacy.antt =====
-- Transactions on a connection whose world is the list of the queries sent; the network fails for as
-- many queries as the list says.
use edgedb_python.Prelude.{
  ◌⊎◌, ℕ, zero, suc, ◌≡◌, refl, String, true, false, List, [], ◌∷◌, ◌++◌, none, some,
}
use edgedb_python.Errors.Client.{interface_error}
use edgedb_python.Errors.Raise.{Exception, ok, new}
use edgedb_python.Connection.{Env, ensure_connected}
use edgedb_python.Transaction.{new_state}
use edgedb_python.Legacy.{Xact, Store, hex, commit_text, rollback_text}
use edgedb_python.Legacy.Runs.{Call, starts, commits, enters, exits, run}
use edgedb_python.Legacy.Outer.{is_started, is_failed, InOrder}
use edgedb_python.Legacy.Reached.{AreNew, new_store, run-new_store-InOrder}
use edgedb_python.Legacy.Forever.{failed_outer_stays}

-- The queries that still fail, and those that were sent.
abbrev Wire : Type 0
Wire = ℕ × List String

lost : Exception
unfolding new
lost = new interface_error "connection lost"

abbrev network : Env Wire
network = record {
  is_open = λ w. true;
  reconnect = λ b w. (none, w);
  execute =
      λ q w. elim w.0 [ zero ↦ (none, (zero, w.1 ++ q ∷ [])) | suc n ↦ (some lost, (n, w.1)) ];
  acquire = λ w. (ok none, w);
  release = λ w. (none, w);
  sleep = λ n w. w;
}

abbrev plain : ℕ → Xact
plain x = record {
  isolation = none;
  readonly = none;
  deferrable = none;
  state = new_state;
  nested = false;
  id = none;
  managed = false;
}

plain-AreNew : AreNew plain
plain-AreNew x = (refl, refl)

abbrev block : String
block = "an `async with` block"

-- A transaction with another one inside it, which is rolled back.
abbrev nested_calls : List Call
nested_calls = enters 0 ∷ enters 1 ∷ exits true 1 ∷ exits false 0 ∷ []

abbrev two_calls : List Call
two_calls = starts 1 ∷ commits 1 ∷ starts 2 ∷ []

-- The connection after a start that failed.
abbrev broken : Store Wire
broken = run network block (starts 0 ∷ []) (new_store plain 1 none (1, []))

hex_of_1000 : hex 1000 1000 ≡ "3e8"
unfolding hex
hex_of_1000 = refl

sent_by_nested_calls :
    (run network block nested_calls (new_store plain 1 none (0, []))).world.1
    ≡ "START TRANSACTION;" ∷ "DECLARE SAVEPOINT _edgedb_savepoint_1_;"
      ∷ "ROLLBACK TO SAVEPOINT _edgedb_savepoint_1_;" ∷ "COMMIT;" ∷ []
unfolding run ensure_connected rollback_text commit_text
sent_by_nested_calls = refl

sent_after_failure :
    (run network block two_calls broken).world.1
    ≡ "DECLARE SAVEPOINT _edgedb_savepoint_1_;" ∷ "RELEASE SAVEPOINT _edgedb_savepoint_1_;"
      ∷ "DECLARE SAVEPOINT _edgedb_savepoint_2_;" ∷ []
unfolding run ensure_connected commit_text
sent_after_failure = refl

broken-InOrder : InOrder broken
broken-InOrder =
    run-new_store-InOrder network block (starts 0 ∷ []) plain 1 none (1, []) plain-AreNew

run-new_store-InOrder_example :
    InOrder (run network block nested_calls (new_store plain 1 none (0, [])))
run-new_store-InOrder_example =
    run-new_store-InOrder network block nested_calls plain 1 none (0, []) plain-AreNew

failed_outer_stays_example :
    ((run network block two_calls broken).top ≡ some 0)
    × (is_failed ((run network block two_calls broken).xacts 0).state ≡ true)
    × ((is_started ((run network block two_calls broken).xacts 2).state ≡ false)
        ⊎ (((run network block two_calls broken).xacts 2).nested ≡ true))
unfolding run ensure_connected
failed_outer_stays_example =
    failed_outer_stays network 0 block two_calls 2 broken broken-InOrder refl
