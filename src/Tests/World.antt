-- ===== src/Tests/World.antt =====
-- A small world behind a connection: a pool that counts, and a server that logs and may fail.
use edgedb_python.Prelude.{
  ℕ, ◌+◌, ◌-◌, String, Bool, true, false, List, [], ◌∷◌, none, some, if◌then◌else◌,
}
use edgedb_python.Errors.Raise.{Exception, ok}
use edgedb_python.Errors.Execution.{transaction_serialization_error}
use edgedb_python.Connection.{Env}
use edgedb_python.Options.{TransactionOptions, repeatable_read}
use edgedb_python.Transaction.{Transaction, new_state, connection, pool}

pub record World : Type 0 where
  pub out : ℕ
  pub sent : List String
  pub failing : Bool

abbrev pub conflict : Exception
conflict = record {
  cls = transaction_serialization_error;
  code = some 0x05_03_01_01;
  message = "could not serialize";
}

abbrev pub env : Env World
env = record {
  is_open = λ w. true;
  reconnect = λ single w. (none, w);
  execute =
      λ query w. (if w.failing then some conflict else none, record w { sent = query ∷ w.sent });
  acquire = λ w. (ok none, record w { out = w.out + 1 });
  release = λ w. (none, record w { out = w.out - 1 });
  sleep = λ delay w. w;
}

abbrev pub quiet : World
quiet = record { out = 0; sent = []; failing = false }

abbrev pub broken : World
broken = record { out = 0; sent = []; failing = true }

abbrev pub plain : TransactionOptions
plain = record { isolation = repeatable_read; readonly = false; deferrable = false }

abbrev pub pooled : {W : Type 0} → W → Transaction W
pooled w = record {
  options = plain;
  state = new_state;
  managed = false;
  owner = pool;
  attached = false;
  borrowed_for = none;
  world = w;
}

abbrev pub direct : World → Transaction World
direct w = record (pooled w) { owner = connection }
