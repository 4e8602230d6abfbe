-- ===== src/Legacy/Reached.antt =====
-- Every run keeps the transactions in order.
use edgedb_python.Prelude.{
  ℕ, ◌≡◌, refl, String, Bool, true, false, ◌==◌, nat_eq, Option, none, if◌then◌else◌, arith,
  Option-cases, inl, inr, List, [], ◌∷◌,
}
use edgedb_python.Errors.Raise.{Result, ok, raised}
use edgedb_python.Connection.{BorrowReason, Env, ensure_connected}
use edgedb_python.Transaction.{TransactionState, new_state, started, committed, rolledback, failed}
use edgedb_python.Legacy.{Xact, Store, commit_text, rollback_text}
use edgedb_python.Legacy.Calls.{
  put_xact, make_start_query, make_end_query, send, send_made, start, commit_query, rollback_query,
  set_managed, commit, rollback, enter, exit,
}
use edgedb_python.Legacy.Runs.{
  Call, starts, commits, rolls_back, enters, elsewhere, exits, call, run,
}
use edgedb_python.Legacy.Outer.{
  InOrder, in_order, is_top, is_new, is_started, MadeStart, MadeEnd, make_start_query-MadeStart,
  make_end_query-MadeEnd, leave-InOrder,
}

-- Each transaction is as `__init__` leaves it.
abbrev pub AreNew : (ℕ → Xact) → Type 0
AreNew xacts = (x : ℕ) → ((xacts x).state ≡ new_state) × ((xacts x).nested ≡ false)

-- A connection without a `_top_xact`.
abbrev pub new_store : {W : Type 0} → (ℕ → Xact) → ℕ → Option BorrowReason → W → Store W
new_store xacts counter borrowed w = record {
  xacts = xacts;
  top = none;
  counter = counter;
  borrowed_for = borrowed;
  world = w;
}

module _ {W : Type 0} (env : Env W) where
  open env use {execute}

  send-InOrder :
      (target : TransactionState) (query : String) (x : ℕ) (s : Store W)
      → ((y : ℕ)
          → x == y ≡ false
          → in_order (is_top s y) (s.xacts y).nested (s.xacts y).state ≡ true)
      → in_order (is_top s x) (s.xacts x).nested target ≡ true
      → in_order (is_top s x) (s.xacts x).nested failed ≡ true
      → InOrder (send env target query x s).1
  unfolding send
  send-InOrder target query x s others good bad = elim (Option-cases (execute query s.world).0) [
    | inl fine ↦
        rw (fine, send)
          (leave-InOrder target (ok tt) x (record s { world = (execute query s.world).1 }) others
            good)
    | inr (e, fails) ↦
        rw (fails, send)
          (leave-InOrder failed (raised e) x (record s { world = (execute query s.world).1 }) others
            bad)
  ]

  send_made-start :
      (x : ℕ) (m : Result String × Store W) → MadeStart x m → InOrder (send_made env started x m).1
  unfolding send_made
  send_made-start x (raised e, s) i = i
  send_made-start x (ok query, s) (others, self) =
      send-InOrder started query x s others (ground arith) (ground arith)

  send_made-end :
      (target : TransactionState) (x : ℕ) (m : Result String × Store W)
      → is_started target ≡ false
      → is_new target ≡ false
      → MadeEnd x m
      → InOrder (send_made env target x m).1
  unfolding send_made
  send_made-end target x (raised e, s) ended old i = i
  send_made-end target x (ok query, s) ended old (others, cleared, before) =
      send-InOrder target query x s others (ground arith) (ground arith)

  start-InOrder : (x : ℕ) (s : Store W) → InOrder s → InOrder (start env x s).1
  unfolding start
  start-InOrder x s i =
      let w = (ensure_connected env false s.borrowed_for s.world).1 in
      elim (Option-cases (ensure_connected env false s.borrowed_for s.world).0) [
        | inl fine ↦
            rw (fine, start)
              (send_made-start x (make_start_query x (record s { world = w }))
                (make_start_query-MadeStart x (record s { world = w }) i))
        | inr (e, fails) ↦ rw (fails, start) i
      ]

  commit_query-InOrder : (x : ℕ) (s : Store W) → InOrder s → InOrder (commit_query env x s).1
  unfolding commit_query
  commit_query-InOrder x s i =
      send_made-end committed x (make_end_query "commit" commit_text x s) refl refl
        (make_end_query-MadeEnd "commit" commit_text x s i)

  rollback_query-InOrder : (x : ℕ) (s : Store W) → InOrder s → InOrder (rollback_query env x s).1
  unfolding rollback_query
  rollback_query-InOrder x s i =
      send_made-end rolledback x (make_end_query "rollback" rollback_text x s) refl refl
        (make_end_query-MadeEnd "rollback" rollback_text x s i)

  set_managed-InOrder :
      (b : Bool) (x : ℕ) (s : Store W) → InOrder s → InOrder (set_managed env b x s)
  unfolding set_managed put_xact
  set_managed-InOrder b x s i y = let here = i y in let there = i x in ground arith

  cond-InOrder :
      (b : Bool) (r r' : Result (Unit {0}) × Store W)
      → InOrder r.1
      → InOrder r'.1
      → InOrder (if b then r else r').1
  cond-InOrder true r r' i j = i
  cond-InOrder false r r' i j = j

  module _ (block : String) where
    call-InOrder : (c : Call) (s : Store W) → InOrder s → InOrder (call env block c s)
    unfolding call commit rollback enter exit
    call-InOrder (starts x) s i = start-InOrder x s i
    call-InOrder (commits x) s i =
        cond-InOrder (s.xacts x).managed _ (commit_query env x s) i (commit_query-InOrder x s i)
    call-InOrder (rolls_back x) s i =
        cond-InOrder (s.xacts x).managed _ (rollback_query env x s) i (rollback_query-InOrder x s i)
    call-InOrder (enters x) s i =
        cond-InOrder (s.xacts x).managed _ (start env x (set_managed env true x s)) i
          (start-InOrder x (set_managed env true x s) (set_managed-InOrder true x s i))
    call-InOrder (elsewhere n) s i = i
    call-InOrder (exits failing x) s i =
        set_managed-InOrder false x
          (if failing then rollback_query env x s else commit_query env x s).1
          (cond-InOrder failing (rollback_query env x s) (commit_query env x s)
            (rollback_query-InOrder x s i) (commit_query-InOrder x s i))

    pub run-InOrder : (cs : List Call) (s : Store W) → InOrder s → InOrder (run env block cs s)
    unfolding run
    run-InOrder [] s i = i
    run-InOrder (c ∷ cs) s i = run-InOrder cs (call env block c s) (call-InOrder c s i)

    -- Whatever calls follow each other on the transactions of a connection that are all new: its
    -- `_top_xact` is always a transaction that is not nested, and is started or failed; each
    -- transaction that is started and not nested is `_top_xact`, so that there is at most one; and a
    -- new one is not nested.
    pub run-new_store-InOrder :
        (cs : List Call) (xacts : ℕ → Xact) (counter : ℕ) (borrowed : Option BorrowReason) (w : W)
        → AreNew xacts
        → InOrder (run env block cs (new_store xacts counter borrowed w))
    run-new_store-InOrder cs xacts counter borrowed w a =
        run-InOrder cs (new_store xacts counter borrowed w)
          (λ x. let (fresh, plain) = a x in ground arith)
