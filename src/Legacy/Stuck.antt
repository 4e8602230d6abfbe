-- ===== src/Legacy/Stuck.antt =====
-- What becomes of a connection whose outer transaction did not start.
use edgedb_python.Prelude.{
  ℕ, ◌≡◌, refl, String, Bool, true, false, ◌&&◌, ◌==◌, nat_eq, arith, Bool-cases, Option-cases, inl,
  inr,
}
use edgedb_python.Errors.Raise.{Result, ok, raised, ◌>>◌, Result-cases}
use edgedb_python.Transaction.{
  TransactionState, new_state, started, committed, rolledback, failed, check_state_base,
  check_state, already_started,
}
use edgedb_python.Legacy.{Xact, Store, inherit, check_options}
use edgedb_python.Legacy.Calls.{
  put_xact, begin_query, choose_query, make_start_query, clear_top, make_end_query, leave,
}
use edgedb_python.Legacy.Outer.{is_top, is_failed}

-- `_top_xact` is `x`, which failed.
abbrev pub is_stuck : {W : Type 0} → ℕ → Store W → Bool
is_stuck x s = is_top s x && is_failed (s.xacts x).state

start_refused :
    (state : TransactionState)
    → is_failed state ≡ true
    → (check_state_base "start" state >> already_started state) ≡ check_state_base "start" failed
unfolding check_state_base already_started
start_refused failed e = refl
start_refused new_state e = absurd (cc)
start_refused started e = absurd (cc)
start_refused committed e = absurd (cc)
start_refused rolledback e = absurd (cc)

end_refused :
    (opname : String) (state : TransactionState)
    → is_failed state ≡ true
    → check_state opname state ≡ check_state opname failed
unfolding check_state
end_refused opname failed e = refl
end_refused opname new_state e = absurd (cc)
end_refused opname started e = absurd (cc)
end_refused opname committed e = absurd (cc)
end_refused opname rolledback e = absurd (cc)

module _ {W : Type 0} (x : ℕ) where
  -- A query is made only for another transaction than `x`.
  abbrev pub MadeStuck : ℕ → Result String × Store W → Type 0
  MadeStuck y (raised e, s) = is_stuck x s ≡ true
  MadeStuck y (ok q, s) = (is_stuck x s ≡ true) × (y == x ≡ false)

  put_xact-stuck :
      (y : ℕ) (t : Xact) (s : Store W)
      → y == x ≡ false
      → is_stuck x s ≡ true
      → is_stuck x (put_xact y t s) ≡ true
  unfolding put_xact
  put_xact-stuck y t s apart k = ground arith

  begin_query-stuck :
      (y : ℕ) (s : Store W)
      → y == x ≡ false
      → is_stuck x s ≡ true
      → is_stuck x (begin_query y s).1 ≡ true
  unfolding begin_query put_xact
  begin_query-stuck y s apart k = ground arith

  choose_query-stuck :
      (y : ℕ) (s : Store W) → y == x ≡ false → is_stuck x s ≡ true → MadeStuck y (choose_query y s)
  unfolding choose_query
  choose_query-stuck y s apart k = elim (Option-cases s.top) [
    | inl nobody ↦ absurd (ground arith)
    | inr (z, outer) ↦
        let t = inherit (s.xacts y) (s.xacts z) in
        elim (Result-cases (check_options t (s.xacts z))) [
          | inl (u, fine) ↦
              rw (outer, choose_query)
                (rw fine (
                  begin_query-stuck y (put_xact y (record t { nested = true }) s) apart
                      (put_xact-stuck y (record t { nested = true }) s apart k),
                  apart,
                ))
          | inr (e, bad) ↦ rw (outer, choose_query) (rw bad (put_xact-stuck y t s apart k))
        ]
  ]

  refused :
      (y : ℕ) (s : Store W)
      → y == x ≡ true
      → is_stuck x s ≡ true
      → is_failed (s.xacts y).state ≡ true
  refused y s same k = ground arith

  pub make_start_query-stuck :
      (y : ℕ) (s : Store W) → is_stuck x s ≡ true → MadeStuck y (make_start_query y s)
  unfolding make_start_query check_state_base
  make_start_query-stuck y s k = elim (Bool-cases (y == x)) [
    | inl same ↦ rw (start_refused (s.xacts y).state (refused y s same k), make_start_query) k
    | inr apart ↦
        elim (Result-cases
          (check_state_base "start" (s.xacts y).state >> already_started (s.xacts y).state)) [
            | inl (t, fine) ↦ rw (fine, make_start_query) (choose_query-stuck y s apart k)
            | inr (e, bad) ↦ rw (bad, make_start_query) k
          ]
  ]

  clear_top-stuck :
      (y : ℕ) (s : Store W)
      → y == x ≡ false
      → is_stuck x s ≡ true
      → is_stuck x (clear_top y s) ≡ true
  unfolding clear_top
  clear_top-stuck y s apart k = ground arith

  pub make_end_query-stuck :
      (opname : String) (text : Xact → String) (y : ℕ) (s : Store W)
      → is_stuck x s ≡ true
      → MadeStuck y (make_end_query opname text y s)
  unfolding make_end_query check_state check_state_base
  make_end_query-stuck opname text y s k = elim (Bool-cases (y == x)) [
    | inl same ↦ rw (end_refused opname (s.xacts y).state (refused y s same k), make_end_query) k
    | inr apart ↦ elim (Result-cases (check_state opname (s.xacts y).state)) [
      | inl (t, fine) ↦ rw (fine, make_end_query) (clear_top-stuck y s apart k, apart)
      | inr (e, bad) ↦ rw (bad, make_end_query) k
    ]
  ]

  pub leave-stuck :
      (state : TransactionState) (r : Result (Unit {0})) (y : ℕ) (s : Store W)
      → y == x ≡ false
      → is_stuck x s ≡ true
      → is_stuck x (leave state r y s).1 ≡ true
  unfolding leave put_xact
  leave-stuck state r y s apart k = ground arith
