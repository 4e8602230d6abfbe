-- ===== src/Legacy.antt =====
-- edgedb/legacy_transaction.py: transactions made by `connection.transaction()`, which nest by
-- savepoints. All transactions of one connection, numbered as they are made, stand together with the
-- connection's `_top_xact` and the counter behind `_get_unique_id`.
pub mod Calls
pub mod Runs
pub mod Outer
pub mod Stuck
pub mod Forever
pub mod Reached
use Prim.Native.String.{◌++◌}
use edgedb_python.Prelude.{
  ℕ, zero, suc, ◌+◌, ◌/◌, ◌%◌, String, Bool, true, false, ◌||◌, ltb, ◌==◌, nat_eq, string_eq,
  Option, none, some, if◌then◌else◌, or_else, List, [], ◌∷◌, get_elem?,
}
use edgedb_python.Errors.Class.{builtin}
use edgedb_python.Errors.Client.{interface_error}
use edgedb_python.Errors.Raise.{Result, ok, raised, new, require, ◌>>=◌, ◌>>◌}
use edgedb_python.Connection.{BorrowReason}
use edgedb_python.Transaction.{
  TransactionState, new_state, started, committed, rolledback, failed, check_state_base,
  check_state, already_started,
}

-- A transaction; `_id` as the number that the counter gave.
pub record Xact : Type 0 where
  pub isolation : Option String
  pub readonly : Option Bool
  pub deferrable : Option Bool
  pub state : TransactionState
  pub nested : Bool
  pub id : Option ℕ
  pub managed : Bool

pub record Store (W : Type 0) : Type 0 where
  pub xacts : ℕ → Xact
  -- `_top_xact`
  pub top : Option ℕ
  pub counter : ℕ
  pub borrowed_for : Option BorrowReason
  pub world : W

unfoldable pub is_level : String → Bool
is_level isolation = isolation == "serializable" || isolation == "repeatable_read"

-- `BaseTransaction.__init__`; the message ends where the set of the levels is printed.
unfoldable pub init : Option String → Option Bool → Option Bool → Result Xact
unfolding is_level new
init isolation readonly deferrable = do
  require (elim isolation [ none ↦ true | some level ↦ is_level level ])
      (new (builtin "ValueError") "isolation is expected to be either of ")
  ok (record {
    isolation = isolation;
    readonly = readonly;
    deferrable = deferrable;
    state = new_state;
    nested = false;
    id = none;
    managed = false;
  })

-- `repr` of an isolation level, and of a flag.
repr_level : Option String → String
repr_level none = "None"
repr_level (some level) = "'" ++ (level ++ "'")

repr_flag : Option Bool → String
repr_flag none = "None"
repr_flag (some true) = "True"
repr_flag (some false) = "False"

same_level : Option String → Option String → Bool
same_level none none = true
same_level (some a) (some b) = a == b
same_level _ _ = false

same_flag : Option Bool → Option Bool → Bool
same_flag none none = true
same_flag (some true) (some true) = true
same_flag (some false) (some false) = true
same_flag _ _ = false

-- The options that are not given, from the outer transaction.
unfoldable pub inherit : Xact → Xact → Xact
inherit t outer = record t {
  isolation = or_else t.isolation outer.isolation;
  readonly = or_else t.readonly outer.readonly;
  deferrable = or_else t.deferrable outer.deferrable;
}

differs : String → String → String → Result (Unit {0})
unfolding new
differs what current outer = raised (
    new interface_error (
      "nested transaction has a different "
      ++ (what ++ (": current " ++ (current ++ (" != outer " ++ outer))))))

unfoldable pub check_options : Xact → Xact → Result (Unit {0})
unfolding same_level same_flag repr_level repr_flag differs
check_options t outer =
    if same_level t.isolation outer.isolation
    then if same_flag t.readonly outer.readonly
      then if same_flag t.deferrable outer.deferrable
        then ok tt
        else differs "deferrable spec" (repr_flag t.deferrable) (repr_flag outer.deferrable)
      else differs "read-write spec" (repr_flag t.readonly) (repr_flag outer.readonly)
    else differs "isolation level" (repr_level t.isolation) (repr_level outer.isolation)

hex_digit : ℕ → String
hex_digit n =
    elim (get_elem? {A = String}
      ("0" ∷ "1" ∷ "2" ∷ "3" ∷ "4" ∷ "5" ∷ "6" ∷ "7" ∷ "8" ∷ "9" ∷ "a" ∷ "b" ∷ "c" ∷ "d" ∷ "e" ∷ "f"
        ∷ [])
      n) [ none ↦ "" | some d ↦ d ]

-- `f'{n:x}'`; `n` units of fuel are enough, since a division by 16 makes a number other than 0
-- smaller.
unfoldable pub hex : ℕ → ℕ → String
unfolding hex_digit
hex zero n = hex_digit (n % 16)
hex (suc fuel) n =
    let front = hex fuel (n / 16) in if ltb n 16 then hex_digit n else front ++ hex_digit (n % 16)

-- `_get_unique_id('savepoint')`, and `None` before it is called.
unfoldable pub savepoint : Option ℕ → String
unfolding hex
savepoint none = "None"
savepoint (some n) = "_edgedb_savepoint_" ++ (hex n n ++ "_")

mode : String → String → Option Bool → String
mode on off none = ""
mode on off (some true) = on
mode on off (some false) = off

level_query : Option String → String
level_query none = "START TRANSACTION"
level_query (some level) =
    if level == "repeatable_read"
    then "START TRANSACTION ISOLATION REPEATABLE READ"
    else if level == "serializable"
    then "START TRANSACTION ISOLATION SERIALIZABLE"
    else "START TRANSACTION"

-- The query of an outer transaction.
unfoldable pub outer_query : Xact → String
unfolding level_query mode
outer_query t =
    level_query t.isolation
    ++ (mode " READ ONLY" " READ WRITE" t.readonly
        ++ (mode " DEFERRABLE" " NOT DEFERRABLE" t.deferrable ++ ";"))

unfoldable pub commit_text : Xact → String
unfolding savepoint
commit_text t = if t.nested then "RELEASE SAVEPOINT " ++ (savepoint t.id ++ ";") else "COMMIT;"

unfoldable pub rollback_text : Xact → String
unfolding savepoint
rollback_text t =
    if t.nested then "ROLLBACK TO SAVEPOINT " ++ (savepoint t.id ++ ";") else "ROLLBACK;"
