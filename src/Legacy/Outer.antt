-- ===== src/Legacy/Outer.antt =====
-- Which transaction is the outer one.
use edgedb_python.Prelude.{
  ℕ, ◌≡◌, refl, String, Bool, true, false, not, ◌&&◌, ◌||◌, ◌==◌, nat_eq, none, some, if◌then◌else◌,
  arith, Bool-cases, Option-cases, inl, inr,
}
use edgedb_python.Errors.Raise.{Result, ok, raised, ◌>>◌, Result-cases}
use edgedb_python.Transaction.{
  TransactionState, new_state, started, committed, rolledback, failed, check_state_base,
  check_state, already_started,
}
use edgedb_python.Legacy.{Xact, Store, inherit, check_options}
use edgedb_python.Legacy.Calls.{
  put_xact, begin_query, choose_query, make_start_query, clear_top, make_end_query, leave,
}

abbrev pub is_top : {W : Type 0} → Store W → ℕ → Bool
is_top s x = elim s.top [ none ↦ false | some y ↦ y == x ]

abbrev pub is_new : TransactionState → Bool
is_new new_state = true
is_new _ = false

abbrev pub is_started : TransactionState → Bool
is_started started = true
is_started _ = false

abbrev pub is_failed : TransactionState → Bool
is_failed failed = true
is_failed _ = false

-- The transaction with this state is in order: `_top_xact` is started or failed, and not nested; one
-- that is started and not nested is `_top_xact`; a new one is not nested.
abbrev pub in_order : Bool → Bool → TransactionState → Bool
in_order top nested state =
    (if top
      then not nested && (is_started state || is_failed state)
      else nested || not (is_started state))
    && not (is_new state && nested)

abbrev pub InOrder : {W : Type 0} → Store W → Type 0
InOrder s = (x : ℕ) → in_order (is_top s x) (s.xacts x).nested (s.xacts x).state ≡ true

fresh_of_guards :
    (state : TransactionState)
    → (check_state_base "start" state >> already_started state) ≡ ok tt
    → is_new state ≡ true
unfolding check_state_base already_started
fresh_of_guards new_state e = refl
fresh_of_guards started e = absurd (cc)
fresh_of_guards committed e = absurd (cc)
fresh_of_guards rolledback e = absurd (cc)
fresh_of_guards failed e = absurd (cc)

old_of_guard :
    (opname : String) (state : TransactionState)
    → check_state opname state ≡ ok tt
    → is_new state ≡ false
unfolding check_state
old_of_guard opname new_state e = absurd (cc)
old_of_guard opname started e = refl
old_of_guard opname committed e = refl
old_of_guard opname rolledback e = refl
old_of_guard opname failed e = refl

module _ {W : Type 0} where
  -- All are in order but `x`, which is nested or `_top_xact`, and not yet started.
  abbrev pub IsReady : ℕ → Store W → Type 0
  IsReady x s =
      ((y : ℕ) → x == y ≡ false → in_order (is_top s y) (s.xacts y).nested (s.xacts y).state ≡ true)
      × ((s.xacts x).nested ≡ not (is_top s x))

  abbrev pub MadeStart : ℕ → Result String × Store W → Type 0
  MadeStart x (raised e, s) = InOrder s
  MadeStart x (ok q, s) = IsReady x s

  begin_query-IsReady : (x : ℕ) (s : Store W) → IsReady x s → IsReady x (begin_query x s).1
  unfolding begin_query put_xact
  begin_query-IsReady x s (others, self) =
      (λ y apart. let here = others y apart in ground arith, ground arith)

  choose_query-MadeStart :
      (x : ℕ) (s : Store W)
      → InOrder s
      → is_new (s.xacts x).state ≡ true
      → MadeStart x (choose_query x s)
  unfolding choose_query put_xact inherit
  choose_query-MadeStart x s i fresh = elim (Option-cases s.top) [
    | inl nobody ↦
        rw (nobody, choose_query)
          (begin_query-IsReady x (record s { top = some x })
            (λ y apart. let here = i y in ground arith, let here = i x in ground arith))
    | inr (z, outer) ↦
        elim (Result-cases (check_options (inherit (s.xacts x) (s.xacts z)) (s.xacts z))) [
          | inl (t, fine) ↦
              rw (outer, choose_query)
                (rw fine (
                  begin_query-IsReady x
                    (put_xact x (record (inherit (s.xacts x) (s.xacts z)) { nested = true }) s)
                    (λ y apart. let here = i y in ground arith, let here = i x in ground arith)))
          | inr (e, bad) ↦ rw (outer, choose_query) (rw bad (λ y. let here = i y in ground arith))
        ]
  ]

  pub make_start_query-MadeStart :
      (x : ℕ) (s : Store W) → InOrder s → MadeStart x (make_start_query x s)
  unfolding make_start_query
  make_start_query-MadeStart x s i =
      elim (Result-cases
        (check_state_base "start" (s.xacts x).state >> already_started (s.xacts x).state)) [
          | inl (t, fine) ↦
              rw (fine, make_start_query)
                (choose_query-MadeStart x s i (fresh_of_guards (s.xacts x).state fine))
          | inr (e, bad) ↦ rw (bad, make_start_query) i
        ]

  -- All are in order but `x`, which is not `_top_xact` any more.
  abbrev pub IsEnding : ℕ → Store W → Type 0
  IsEnding x s =
      ((y : ℕ) → x == y ≡ false → in_order (is_top s y) (s.xacts y).nested (s.xacts y).state ≡ true)
      × (is_top s x ≡ false)
      × (is_new (s.xacts x).state ≡ false)

  abbrev pub MadeEnd : ℕ → Result String × Store W → Type 0
  MadeEnd x (raised e, s) = InOrder s
  MadeEnd x (ok q, s) = IsEnding x s

  old_of_clear :
      (x : ℕ) (s : Store W)
      → is_new (s.xacts x).state ≡ false
      → is_new ((clear_top x s).xacts x).state ≡ false
  unfolding clear_top
  old_of_clear x s old = ground arith

  clear_top-IsEnding :
      (x : ℕ) (s : Store W)
      → InOrder s
      → is_new (s.xacts x).state ≡ false
      → IsEnding x (clear_top x s)
  unfolding clear_top
  clear_top-IsEnding x s i old =
      (λ y apart. let here = i y in ground arith, ground arith, old_of_clear x s old)

  pub make_end_query-MadeEnd :
      (opname : String) (text : Xact → String) (x : ℕ) (s : Store W)
      → InOrder s
      → MadeEnd x (make_end_query opname text x s)
  unfolding make_end_query
  make_end_query-MadeEnd opname text x s i =
      elim (Result-cases (check_state opname (s.xacts x).state)) [
        | inl (t, fine) ↦
            rw (fine, make_end_query)
              (clear_top-IsEnding x s i (old_of_guard opname (s.xacts x).state fine))
        | inr (e, bad) ↦ rw (bad, make_end_query) i
      ]

  pub leave-InOrder :
      (state : TransactionState) (r : Result (Unit {0})) (x : ℕ) (s : Store W)
      → ((y : ℕ)
          → x == y ≡ false
          → in_order (is_top s y) (s.xacts y).nested (s.xacts y).state ≡ true)
      → in_order (is_top s x) (s.xacts x).nested state ≡ true
      → InOrder (leave state r x s).1
  unfolding leave put_xact
  leave-InOrder state r x s others self y = elim (Bool-cases (x == y)) [
    | inl same ↦ ground arith
    | inr apart ↦ let here = others y apart in ground arith
  ]
