-- ===== src/Transaction/States.antt =====
-- The state machine of a transaction: the moves that its methods can make.
use edgedb_python.Prelude.{◌≡◌, refl, ◌∙◌, ◌⊎◌, Bool, true, false, List, [], ◌∷◌, arith}
use edgedb_python.Errors.Raise.{new, Raises}
use edgedb_python.Errors.Client.{interface_error}
use edgedb_python.Connection.{Env}
use edgedb_python.Transaction.{
  TransactionState, new_state, started, committed, rolledback, failed, Transaction, Action,
  make_start_query, make_commit_query, make_rollback_query, send_start, start_on, start_with,
  give_back, settle, commit_query, rollback_query, start, commit, rollback, enter, exit,
}
use edgedb_python.Transaction.Calls.{
  Call, starts, commits, rolls_back, enters, exits, run_call, run_calls,
}

-- Nothing is left to do.
abbrev pub IsOver : TransactionState → Type 0
IsOver s = (s ≡ committed) ⊎ ((s ≡ rolledback) ⊎ (s ≡ failed))

-- The moves: a start succeeds or fails, and a started transaction ends in one of three ways.
pub data Move : TransactionState → TransactionState → Type 0 where
  stays : {s : TransactionState} → Move s s
  starts_ok : Move new_state started
  starts_badly : Move new_state failed
  commits_ok : Move started committed
  rolls_back_ok : Move started rolledback
  ends_badly : Move started failed

module _ {W : Type 0} (env : Env W) where
  start_on-Move :
      (query : _) (single : Bool) (t : Transaction W)
      → t.state ≡ new_state
      → Move t.state (start_on env query single t).1.state
  unfolding start_on send_start
  start_on-Move query single t h = grind (arith, stays, starts_ok, starts_badly)

  start_with-Move :
      (single : Bool) (t : Transaction W) → Move t.state (start_with env single t).1.state
  unfolding start_with start_on send_start make_start_query
  start_with-Move single t = grind (arith, stays, starts_ok, starts_badly)

  settle_state :
      (query : _) (target : TransactionState) (t : Transaction W)
      → ((settle env query target t).1.state ≡ target)
        ⊎ ((settle env query target t).1.state ≡ failed)
  unfolding settle give_back
  settle_state query target t = ground arith

  commit_query-Move : (t : Transaction W) → Move t.state (commit_query env t).1.state
  unfolding commit_query make_commit_query
  commit_query-Move t = grind (arith, stays, commits_ok, ends_badly, settle_state)

  rollback_query-Move : (t : Transaction W) → Move t.state (rollback_query env t).1.state
  unfolding rollback_query make_rollback_query
  rollback_query-Move t = grind (arith, stays, rolls_back_ok, ends_badly, settle_state)

  pub enter-Move :
      (begin : Action W) (t : Transaction W)
      → ((u : Transaction W) → Move u.state (begin u).1.state)
      → Move t.state (enter begin t).1.state
  unfolding enter
  enter-Move begin t h = grind (arith, stays, h (record t { managed = true }))

  -- Each call, whatever the server answers, leaves the state or makes one of five moves: from new to
  -- started or failed, from started to committed, rolled back or failed.
  pub run_call-Move : (c : Call) (t : Transaction W) → Move t.state (run_call env c t).1.state
  unfolding run_call start commit rollback enter exit
  run_call-Move starts t = start_with-Move false t
  run_call-Move commits t = grind (arith, stays, commit_query-Move)
  run_call-Move rolls_back t = grind (arith, stays, rollback_query-Move)
  run_call-Move enters t = enter-Move (start_with env false) t (start_with-Move false)
  run_call-Move (exits failing) t = grind (arith, commit_query-Move, rollback_query-Move)

  -- The call raises an InterfaceError and sends nothing; only `__aexit__` still ends the block.
  abbrev pub IsRefused : Call → Transaction W → Type 0
  IsRefused c t =
      Raises interface_error (run_call env c t).0
      × ((run_call env c t).1.world ≡ t.world)
      × ((run_call env c t).1.state ≡ t.state)
      × ((run_call env c t).1.borrowed_for ≡ t.borrowed_for)

  start_with_over :
      (single : Bool) (t : Transaction W)
      → IsOver t.state
      → Raises interface_error (start_with env single t).0 × ((start_with env single t).1 ≡ t)
  unfolding start_with make_start_query new
  start_with_over single t h = ground arith

  commit_query_over :
      (t : Transaction W)
      → IsOver t.state
      → Raises interface_error (commit_query env t).0 × ((commit_query env t).1 ≡ t)
  unfolding commit_query make_commit_query new
  commit_query_over t h = ground arith

  rollback_query_over :
      (t : Transaction W)
      → IsOver t.state
      → Raises interface_error (rollback_query env t).0 × ((rollback_query env t).1 ≡ t)
  unfolding rollback_query make_rollback_query new
  rollback_query_over t h = ground arith

  -- Once a transaction is committed, rolled back or failed, every further call raises an
  -- InterfaceError and changes neither the server, nor the state, nor the borrowing.
  pub over_refuses : (c : Call) (t : Transaction W) → IsOver t.state → IsRefused c t
  unfolding run_call start commit rollback enter exit
  over_refuses starts t h = ground (arith, start_with_over false t h)
  over_refuses commits t h = ground (arith, commit_query_over t h)
  over_refuses rolls_back t h = ground (arith, rollback_query_over t h)
  over_refuses enters t h = ground (arith, start_with_over false (record t { managed = true }) h)
  over_refuses (exits failing) t h = ground (arith, commit_query_over t h, rollback_query_over t h)

  pub over_forever :
      (cs : List Call) (t : Transaction W)
      → IsOver t.state
      → ((run_calls env cs t).world ≡ t.world) × ((run_calls env cs t).state ≡ t.state)
  unfolding run_calls
  over_forever [] t h = (refl, refl)
  over_forever (c ∷ cs) t h =
      let (_, w, s, _) = over_refuses c t h in
      let (w', s') = over_forever cs (run_call env c t).1 (rw s h) in (w' ∙ w, s' ∙ s)
