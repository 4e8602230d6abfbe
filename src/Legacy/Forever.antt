-- ===== src/Legacy/Forever.antt =====
-- Runs of a connection whose outer transaction failed.
use edgedb_python.Prelude.{
  Bool-cases, ◌⊎◌, ℕ, ◌≡◌, String, Bool, true, false, ◌==◌, nat_eq, some, if◌then◌else◌, arith,
  Option-cases, inl, inr, List, [], ◌∷◌,
}
use edgedb_python.Errors.Raise.{Result, ok, raised}
use edgedb_python.Connection.{Env, ensure_connected}
use edgedb_python.Transaction.{TransactionState, started, committed, rolledback, failed}
use edgedb_python.Legacy.{Store, commit_text, rollback_text}
use edgedb_python.Legacy.Calls.{
  put_xact, make_start_query, make_end_query, send, send_made, start, commit_query, rollback_query,
  set_managed, commit, rollback, enter, exit,
}
use edgedb_python.Legacy.Runs.{
  Call, starts, commits, rolls_back, enters, elsewhere, exits, call, run,
}
use edgedb_python.Legacy.Outer.{is_failed, is_started, InOrder}
use edgedb_python.Legacy.Reached.{run-InOrder}
use edgedb_python.Legacy.Stuck.{
  is_stuck, MadeStuck, make_start_query-stuck, make_end_query-stuck, leave-stuck,
}

module _ {W : Type 0} (env : Env W) (x : ℕ) where
  open env use {execute}

  send-stuck :
      (target : TransactionState) (query : String) (y : ℕ) (s : Store W)
      → y == x ≡ false
      → is_stuck x s ≡ true
      → is_stuck x (send env target query y s).1 ≡ true
  unfolding send
  send-stuck target query y s apart k =
      let w = (execute query s.world).1 in
      elim (Option-cases (execute query s.world).0) [
        | inl fine ↦
            rw (fine, send) (leave-stuck x target (ok tt) y (record s { world = w }) apart k)
        | inr (e, fails) ↦
            rw (fails, send) (leave-stuck x failed (raised e) y (record s { world = w }) apart k)
      ]

  send_made-stuck :
      (target : TransactionState) (y : ℕ) (m : Result String × Store W)
      → MadeStuck x y m
      → is_stuck x (send_made env target y m).1 ≡ true
  unfolding send_made
  send_made-stuck target y (raised e, s) k = k
  send_made-stuck target y (ok query, s) (k, apart) = send-stuck target query y s apart k

  start-stuck : (y : ℕ) (s : Store W) → is_stuck x s ≡ true → is_stuck x (start env y s).1 ≡ true
  unfolding start
  start-stuck y s k =
      let w = (ensure_connected env false s.borrowed_for s.world).1 in
      elim (Option-cases (ensure_connected env false s.borrowed_for s.world).0) [
        | inl fine ↦
            rw (fine, start)
              (send_made-stuck started y (make_start_query y (record s { world = w }))
                (make_start_query-stuck x y (record s { world = w }) k))
        | inr (e, fails) ↦ rw (fails, start) k
      ]

  commit_query-stuck :
      (y : ℕ) (s : Store W) → is_stuck x s ≡ true → is_stuck x (commit_query env y s).1 ≡ true
  unfolding commit_query
  commit_query-stuck y s k =
      send_made-stuck committed y (make_end_query "commit" commit_text y s)
        (make_end_query-stuck x "commit" commit_text y s k)

  rollback_query-stuck :
      (y : ℕ) (s : Store W) → is_stuck x s ≡ true → is_stuck x (rollback_query env y s).1 ≡ true
  unfolding rollback_query
  rollback_query-stuck y s k =
      send_made-stuck rolledback y (make_end_query "rollback" rollback_text y s)
        (make_end_query-stuck x "rollback" rollback_text y s k)

  set_managed-stuck :
      (b : Bool) (y : ℕ) (s : Store W)
      → is_stuck x s ≡ true
      → is_stuck x (set_managed env b y s) ≡ true
  unfolding set_managed put_xact
  set_managed-stuck b y s k = ground arith

  cond-stuck :
      (b : Bool) (r r' : Result (Unit {0}) × Store W)
      → is_stuck x r.1 ≡ true
      → is_stuck x r'.1 ≡ true
      → is_stuck x (if b then r else r').1 ≡ true
  cond-stuck true r r' k l = k
  cond-stuck false r r' k l = l

  module _ (block : String) where
    call-stuck :
        (c : Call) (s : Store W) → is_stuck x s ≡ true → is_stuck x (call env block c s) ≡ true
    unfolding call commit rollback enter exit
    call-stuck (starts y) s k = start-stuck y s k
    call-stuck (commits y) s k =
        cond-stuck (s.xacts y).managed _ (commit_query env y s) k (commit_query-stuck y s k)
    call-stuck (rolls_back y) s k =
        cond-stuck (s.xacts y).managed _ (rollback_query env y s) k (rollback_query-stuck y s k)
    call-stuck (enters y) s k =
        cond-stuck (s.xacts y).managed _ (start env y (set_managed env true y s)) k
          (start-stuck y (set_managed env true y s) (set_managed-stuck true y s k))
    call-stuck (elsewhere n) s k = k
    call-stuck (exits failing y) s k =
        set_managed-stuck false y
          (if failing then rollback_query env y s else commit_query env y s).1
          (cond-stuck failing (rollback_query env y s) (commit_query env y s)
            (rollback_query-stuck y s k) (commit_query-stuck y s k))

    run-stuck :
        (cs : List Call) (s : Store W)
        → is_stuck x s ≡ true
        → is_stuck x (run env block cs s) ≡ true
    unfolding run
    run-stuck [] s k = k
    run-stuck (c ∷ cs) s k = run-stuck cs (call env block c s) (call-stuck c s k)

    -- Where the transactions are in order and `_top_xact` is one that failed, it stays `_top_xact`
    -- and failed whatever calls follow on any transactions of the connection, and each transaction
    -- that is started then is nested.
    pub failed_outer_stays :
        (cs : List Call) (y : ℕ) (s : Store W)
        → InOrder s
        → is_stuck x s ≡ true
        → ((run env block cs s).top ≡ some x)
          × (is_failed ((run env block cs s).xacts x).state ≡ true)
          × ((is_started ((run env block cs s).xacts y).state ≡ false)
              ⊎ (((run env block cs s).xacts y).nested ≡ true))
    failed_outer_stays cs y s i k =
        let still = run-stuck cs s k in
        let here = run-InOrder env block cs s i y in
        let at_top : (run env block cs s).top ≡ some x = ground arith in
        (
          at_top,
          ground arith,
          elim (Bool-cases (is_started ((run env block cs s).xacts y).state)) [
            | inr off ↦ inl off
            | inl live ↦ inr (ground arith)
          ],
        )
