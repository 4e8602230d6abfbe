-- ===== src/Legacy/Calls.antt =====
-- edgedb/legacy_transaction.py: starting, committing and rolling back. The classes Transaction and
-- AsyncIOTransaction differ in the name of a block, which their messages contain.
use Prim.Native.String.{◌++◌}
use edgedb_python.Prelude.{
  ℕ, suc, String, Bool, true, false, ◌==◌, nat_eq, none, some, if◌then◌else◌,
}
use edgedb_python.Errors.Client.{interface_error}
use edgedb_python.Errors.Raise.{Result, ok, raised, new, ◌>>◌}
use edgedb_python.Connection.{Env, ensure_connected}
use edgedb_python.Transaction.{
  TransactionState, started, committed, rolledback, failed, check_state_base, check_state,
  already_started,
}
use edgedb_python.Legacy.{
  Xact, Store, inherit, check_options, savepoint, outer_query, commit_text, rollback_text,
}

-- The store with another transaction at `x`.
unfoldable pub put_xact : {W : Type 0} → ℕ → Xact → Store W → Store W
put_xact x t s = record s { xacts = λ y. if y == x then t else s.xacts y }

-- The query of a start, once it is known whether the transaction is nested.
unfoldable pub begin_query : {W : Type 0} → ℕ → Store W → String × Store W
unfolding put_xact savepoint outer_query
begin_query x s =
    let t = s.xacts x in
    if t.nested
    then (
      "DECLARE SAVEPOINT " ++ (savepoint (some s.counter) ++ ";"),
      put_xact x (record t { id = some s.counter }) (record s { counter = suc s.counter }),
    )
    else (outer_query t, s)

-- The part of `_make_start_query` after its guards.
unfoldable pub choose_query : {W : Type 0} → ℕ → Store W → Result String × Store W
unfolding begin_query inherit check_options put_xact
choose_query x s = elim s.top [
  | none ↦ let (q, s') = begin_query x (record s { top = some x }) in (ok q, s')
  | some y ↦
      let t = inherit (s.xacts x) (s.xacts y) in
      elim (check_options t (s.xacts y)) [
        | raised e ↦ (raised e, put_xact x t s)
        | ok _ ↦
            let (q, s') = begin_query x (put_xact x (record t { nested = true }) s) in (ok q, s')
      ]
]

-- `_make_start_query`
unfoldable pub make_start_query : {W : Type 0} → ℕ → Store W → Result String × Store W
unfolding choose_query check_state_base already_started
make_start_query x s =
    elim (check_state_base "start" (s.xacts x).state >> already_started (s.xacts x).state) [
      | raised e ↦ (raised e, s)
      | ok _ ↦ choose_query x s
    ]

-- `if _top_xact is self: _top_xact = None`
unfoldable pub clear_top : {W : Type 0} → ℕ → Store W → Store W
clear_top x s = elim s.top [ none ↦ s | some y ↦ if y == x then record s { top = none } else s ]

-- `_make_commit_query`, `_make_rollback_query`
unfoldable pub make_end_query :
    {W : Type 0} → String → (Xact → String) → ℕ → Store W → Result String × Store W
unfolding clear_top check_state
make_end_query opname text x s = elim (check_state opname (s.xacts x).state) [
  | raised e ↦ (raised e, s)
  | ok _ ↦ (ok (text (s.xacts x)), clear_top x s)
]

abbrev pub Action : Type 0 → Type 0
Action W = ℕ → Store W → Result (Unit {0}) × Store W

-- A result, and the store in which the transaction has this state.
unfoldable pub leave : {W : Type 0} → TransactionState → Result (Unit {0}) → Action W
unfolding put_xact
leave state r x s = (r, put_xact x (record (s.xacts x) { state = state }) s)

module _ {W : Type 0} (env : Env W) where
  open env use {execute}

  -- `privileged_execute(query)` with its handlers; `target` is the state on success.
  unfoldable pub send : TransactionState → String → Action W
  unfolding leave
  send target query x s =
      let (o, w) = execute query s.world in
      elim o [
        | some e ↦ leave failed (raised e) x (record s { world = w })
        | none ↦ leave target (ok tt) x (record s { world = w })
      ]

  -- The query is sent if there is one.
  unfoldable pub send_made :
      TransactionState → ℕ → Result String × Store W → Result (Unit {0}) × Store W
  unfolding send
  send_made target x (raised e, s) = (raised e, s)
  send_made target x (ok query, s) = send target query x s

  unfoldable pub start : Action W
  unfolding make_start_query send_made
  start x s =
      let (o, w) = ensure_connected env false s.borrowed_for s.world in
      elim o [
        | some e ↦ (raised e, record s { world = w })
        | none ↦ send_made started x (make_start_query x (record s { world = w }))
      ]

  -- `__commit`
  unfoldable pub commit_query : Action W
  unfolding make_end_query send_made
  commit_query x s = send_made committed x (make_end_query "commit" commit_text x s)

  -- `__rollback`
  unfoldable pub rollback_query : Action W
  unfolding make_end_query send_made
  rollback_query x s = send_made rolledback x (make_end_query "rollback" rollback_text x s)

  unfoldable pub set_managed : Bool → ℕ → Store W → Store W
  unfolding put_xact
  set_managed b x s = put_xact x (record (s.xacts x) { managed = b }) s

  -- `commit`, `rollback`, `__aenter__` and `__aexit__`; `block` is "an `async with` block", or
  -- "a `with` block" for the class Transaction.
  module _ (block : String) where
    unfoldable pub commit : Action W
    unfolding commit_query new
    commit x s =
        if (s.xacts x).managed
        then (raised (new interface_error ("cannot manually commit from within " ++ block)), s)
        else commit_query x s

    unfoldable pub rollback : Action W
    unfolding rollback_query new
    rollback x s =
        if (s.xacts x).managed
        then (raised (new interface_error ("cannot manually rollback from within " ++ block)), s)
        else rollback_query x s

    unfoldable pub enter : Action W
    unfolding start set_managed new
    enter x s =
        if (s.xacts x).managed
        then (raised (new interface_error ("cannot enter context: already in " ++ block)), s)
        else start x (set_managed true x s)

    -- `failing` says whether the block raised.
    unfoldable pub exit : Bool → Action W
    unfolding commit_query rollback_query set_managed
    exit failing x s =
        let (r, s') = if failing then rollback_query x s else commit_query x s in
        (r, set_managed false x s')
