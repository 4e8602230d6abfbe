-- ===== src/Transaction/Blocking.antt =====
-- edgedb/transaction.py: the blocking class `Transaction`, against `AsyncIOTransaction`.
use edgedb_python.Prelude.{◌≡◌, Bool, true, false, none, some, if◌then◌else◌, arith, String}
use edgedb_python.Errors.Class.{builtin}
use edgedb_python.Errors.Raise.{Exception, ok, raised, new, Raises}
use edgedb_python.Errors.Client.{interface_error}
use edgedb_python.Connection.{Env, BorrowReason, transaction, ensure_connected, borrow_error}
use edgedb_python.Transaction
use edgedb_python.Transaction.{
  TransactionState, new_state, started, committed, rolledback, failed, Transaction, Action,
  connection, make_start_query, make_commit_query, make_rollback_query,
}

module _ {W : Type 0} (env : Env W) where
  open env use {execute}

  -- `raise base_con.borrow_error(self._connection_inner._borrowed_for)`
  raise_borrowed : BorrowReason → Transaction W → Exception
  raise_borrowed reason t =
      if t.attached
      then borrow_error reason
      else new (builtin "AttributeError")
          "'Transaction' object has no attribute '_connection_inner'"

  -- `privileged_execute(query)` in `_start`, with its handlers.
  unfoldable pub send_start : String → Action W
  send_start query t =
      let (o, w) = execute query t.world in
      elim o [
        | some e ↦ (raised e, record t { state = failed; borrowed_for = none; world = w })
        | none ↦ (ok tt, record t { state = started; world = w })
      ]

  -- `_start`
  unfoldable pub start_with : Bool → Action W
  unfolding raise_borrowed
  start_with single_connect t = elim (make_start_query t.options t.state) [
    | raised e ↦ (raised e, t)
    | ok query ↦ elim t.borrowed_for [
      | some reason ↦ (raised (raise_borrowed reason t), t)
      | none ↦
          let (o, w) = ensure_connected env single_connect t.borrowed_for t.world in
          elim o [
            | some e ↦ (raised e, record t { world = w })
            | none ↦
                send_start query
                  (record t { attached = true; borrowed_for = some transaction; world = w })
          ]
    ]
  ]

  -- `__commit` and `__rollback` once the query is made.
  unfoldable pub settle : String → TransactionState → Action W
  settle query target t =
      let (o, w) = execute query t.world in
      (
        elim o [ none ↦ ok tt | some e ↦ raised e ],
        record t {
          state = elim o [ none ↦ target | some e ↦ failed ];
          borrowed_for = none;
          world = w;
        },
      )

  -- `__commit`
  unfoldable pub commit_query : Action W
  commit_query t = elim (make_commit_query t.state) [
    | raised e ↦ (raised e, t)
    | ok query ↦ settle query committed t
  ]

  -- `__rollback`
  unfoldable pub rollback_query : Action W
  rollback_query t = elim (make_rollback_query t.state) [
    | raised e ↦ (raised e, t)
    | ok query ↦ settle query rolledback t
  ]

  unfoldable pub start : Action W
  start = start_with false

  unfoldable pub commit : Action W
  unfolding new
  commit t =
      if t.managed
      then (raised (new interface_error "cannot manually commit from within a `with` block"), t)
      else commit_query t

  unfoldable pub rollback : Action W
  unfolding new
  rollback t =
      if t.managed
      then (raised (new interface_error "cannot manually rollback from within a `with` block"), t)
      else rollback_query t

  -- `__exit__`
  unfoldable pub exit : Bool → Action W
  exit failing t =
      let (r, t') = if failing then rollback_query t else commit_query t in
      (r, record t' { managed = false })

  settle-eq :
      (query : String) (target : TransactionState) (t : Transaction W)
      → t.owner ≡ connection
      → settle query target t ≡ Transaction.settle env query target t
  unfolding settle Transaction.settle Transaction.give_back
  settle-eq query target t o = ground arith

  -- On a connection that is not borrowed the blocking start does what the asynchronous one does.
  pub start_with-eq :
      (single : Bool) (t : Transaction W)
      → t.owner ≡ connection
      → t.borrowed_for ≡ none
      → start_with single t ≡ Transaction.start_with env single t
  unfolding start_with Transaction.start_with send_start Transaction.send_start Transaction.start_on
  start_with-eq single t o b = ground arith

  -- Over a connection the blocking `__exit__` does what the asynchronous `__aexit__` does.
  exit-eq :
      (failing : Bool) (t : Transaction W)
      → t.owner ≡ connection
      → exit failing t ≡ Transaction.exit env failing t
  unfolding exit Transaction.exit commit_query Transaction.commit_query rollback_query
      Transaction.rollback_query make_commit_query make_rollback_query
  exit-eq failing t o =
      ground (arith, settle-eq "COMMIT;" committed t o, settle-eq "ROLLBACK;" rolledback t o)

  -- A new blocking transaction on a connection that another one borrows: the start raises an
  -- AttributeError in place of the InterfaceError that the asynchronous class raises there.
  start_borrowed :
      (single : Bool) (t : Transaction W) (reason : BorrowReason)
      → t.owner ≡ connection
      → t.state ≡ new_state
      → t.attached ≡ false
      → t.borrowed_for ≡ some reason
      → Raises (builtin "AttributeError") (start_with single t).0
        × Raises interface_error (Transaction.start_with env single t).0
        × ((start_with single t).1 ≡ t)
  unfolding start_with Transaction.start_with Transaction.start_on make_start_query new borrow_error
  start_borrowed single t reason o s a b = ground arith
