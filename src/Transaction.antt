-- ===== src/Transaction.antt =====
-- edgedb/transaction.py: `BaseTransaction` and `AsyncIOTransaction`. A transaction stands together
-- with the connection's `_borrowed_for` and the world behind the connection.
pub mod Calls
pub mod States
pub mod Borrow
pub mod Metered
pub mod Ledger
pub mod Blocking
use Prim.Native.String.{◌++◌}
use edgedb_python.Prelude.{
  ℕ, ◌≡◌, refl, String, Bool, true, false, not, List, [], ◌∷◌, Option, none, some, if◌then◌else◌,
  arith,
}
use edgedb_python.Errors.Raise.{Exception, Result, ok, raised, new, ◌>>=◌, ◌>>◌}
use edgedb_python.Errors.Client.{interface_error}
use edgedb_python.Options.{TransactionOptions, start_transaction_query}
use edgedb_python.Connection.{BorrowReason, transaction, borrow_error, Env, ensure_connected}

pub data TransactionState : Type 0 where
  new_state started committed rolledback failed : TransactionState

-- The object that the transaction was made from: a connection, or a pool.
pub data Owner : Type 0 where
  connection pool : Owner

pub record Transaction (W : Type 0) : Type 0 where
  pub options : TransactionOptions
  pub state : TransactionState
  pub managed : Bool
  pub owner : Owner
  -- `_connection_inner` has been set.
  pub attached : Bool
  -- `_borrowed_for` of the connection: the owner, or the one that the pool gave.
  pub borrowed_for : Option BorrowReason
  pub world : W

-- `__init__`
unfoldable pub init :
    {W : Type 0} → Owner → TransactionOptions → Option BorrowReason → W → Transaction W
init owner options borrowed w = record {
  options = options;
  state = new_state;
  managed = false;
  owner = owner;
  attached = false;
  borrowed_for = borrowed;
  world = w;
}

unfoldable pub is_active : {W : Type 0} → Transaction W → Bool
is_active t = elim t.state [ started ↦ true | _ ↦ false ]

cannot : String → String → Exception
unfolding new
cannot opname why = new interface_error ("cannot " ++ (opname ++ ("; the transaction is " ++ why)))

-- `__check_state_base`
unfoldable pub check_state_base : String → TransactionState → Result (Unit {0})
unfolding cannot
check_state_base opname committed = raised (cannot opname "already committed")
check_state_base opname rolledback = raised (cannot opname "already rolled back")
check_state_base opname failed = raised (cannot opname "in error state")
check_state_base opname _ = ok tt

-- `__check_state`
unfoldable pub check_state : String → TransactionState → Result (Unit {0})
unfolding cannot check_state_base
check_state opname started = ok tt
check_state opname new_state = raised (cannot opname "not yet started")
check_state opname s = check_state_base opname s

unfoldable pub already_started : TransactionState → Result (Unit {0})
already_started started =
    raised (new interface_error "cannot start; the transaction is already started")
already_started _ = ok tt

unfoldable pub make_start_query : TransactionOptions → TransactionState → Result String
unfolding check_state_base already_started
make_start_query options s = do
  check_state_base "start" s
  already_started s
  ok (start_transaction_query options)

unfoldable pub make_commit_query : TransactionState → Result String
unfolding check_state
make_commit_query s = do check_state "commit" s; ok "COMMIT;"

unfoldable pub make_rollback_query : TransactionState → Result String
unfolding check_state
make_rollback_query s = do check_state "rollback" s; ok "ROLLBACK;"

-- A method returns or raises, and leaves the objects in a new state.
abbrev pub Action : Type 0 → Type 0
Action W = Transaction W → Result (Unit {0}) × Transaction W

-- `__aenter__`; `begin` is the class's `start`.
unfoldable pub enter : {W : Type 0} → Action W → Action W
unfolding new
enter begin t =
    if t.managed
    then (raised (new interface_error "cannot enter context: already in an `async with` block"), t)
    else begin (record t { managed = true })

module _ {W : Type 0} (env : Env W) where
  open env use {execute, acquire, release}

  -- `privileged_execute(query)` in `_start`, with its handlers.
  unfoldable pub send_start : String → Action W
  send_start query t =
      let (o, w) = execute query t.world in
      elim o [
        | some e ↦ (raised e, record t { state = failed; borrowed_for = none; world = w })
        | none ↦ (ok tt, record t { state = started; world = w })
      ]

  -- `_start` from the check of `_borrowed_for` on.
  unfoldable pub start_on : String → Bool → Action W
  start_on query single_connect t = elim t.borrowed_for [
    | some reason ↦ (raised (borrow_error reason), t)
    | none ↦
        let (o, w) = ensure_connected env single_connect t.borrowed_for t.world in
        elim o [
          | some e ↦ (raised e, record t { world = w })
          | none ↦
              send_start query
                (record t { attached = true; borrowed_for = some transaction; world = w })
        ]
  ]

  -- `_start`
  unfoldable pub start_with : Bool → Action W
  start_with single_connect t = elim (make_start_query t.options t.state) [
    | raised e ↦ (raised e, t)
    | ok query ↦ elim t.owner [
      | connection ↦ start_on query single_connect t
      | pool ↦
          let (r, w) = acquire t.world in
          elim r [
            | raised e ↦ (raised e, record t { world = w })
            | ok borrowed ↦
                start_on query single_connect (record t { borrowed_for = borrowed; world = w })
          ]
    ]
  ]

  -- The `finally` block of `__commit` and of `__rollback`, after the outcome `o` of the query.
  unfoldable pub give_back : Option Exception → Action W
  give_back o t = elim t.owner [
    | connection ↦ (elim o [ none ↦ ok tt | some e ↦ raised e ], record t { borrowed_for = none })
    | pool ↦
        let (p, w) = release t.world in
        (
          elim p [ some e ↦ raised e | none ↦ elim o [ none ↦ ok tt | some e ↦ raised e ] ],
          record t { borrowed_for = none; world = w },
        )
  ]

  -- `__commit` and `__rollback` once the query is made: `target` is the state on success.
  unfoldable pub settle : String → TransactionState → Action W
  settle query target t =
      let (o, w) = execute query t.world in
      give_back o (record t { state = elim o [ none ↦ target | some e ↦ failed ]; world = w })

  -- `__commit`
  unfoldable pub commit_query : Action W
  commit_query t = elim (make_commit_query t.state) [
    | raised e ↦ (raised e, t)
    | ok query ↦ settle query committed t
  ]

  -- `__rollback`
  unfoldable pub rollback_query : Action W
  rollback_query t = elim (make_rollback_query t.state) [
    | raised e ↦ (raised e, t)
    | ok query ↦ settle query rolledback t
  ]

  unfoldable pub start : Action W
  start = start_with false

  unfoldable pub commit : Action W
  unfolding new
  commit t =
      if t.managed
      then (
        raised (new interface_error "cannot manually commit from within an `async with` block"),
        t,
      )
      else commit_query t

  unfoldable pub rollback : Action W
  unfolding new
  rollback t =
      if t.managed
      then (
        raised (new interface_error "cannot manually rollback from within an `async with` block"),
        t,
      )
      else rollback_query t

  -- `__aexit__`; `failing` says whether the block raised.
  unfoldable pub exit : Bool → Action W
  exit failing t =
      let (r, t') = if failing then rollback_query t else commit_query t in
      (r, record t' { managed = false })
