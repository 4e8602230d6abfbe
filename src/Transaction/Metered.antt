-- ===== src/Transaction/Metered.antt =====
-- A transaction's calls of the pool, counted, and what each call of the transaction adds to them.
use edgedb_python.Prelude.{
  ℕ, suc, ◌+◌, ◌≤◌, ◌≡◌, refl, inl, inr, Bool, true, false, List, [], ◌∷◌, Option, arith, String,
  if◌then◌else◌,
}
use edgedb_python.Options.{start_transaction_query}
use edgedb_python.Errors.Raise.{Exception, Result, ok, raised, Result-cases}
use edgedb_python.Connection.{Env, BorrowReason, ensure_connected}
use edgedb_python.Transaction.{
  TransactionState, new_state, started, committed, rolledback, Transaction, pool, make_start_query,
  make_commit_query, make_rollback_query, send_start, start_on, start_with, give_back, settle,
  commit_query, rollback_query, start, commit, rollback, enter, exit,
}
use edgedb_python.Transaction.Calls.{
  Call, starts, commits, rolls_back, enters, exits, run_call, run_calls,
}

-- A world, with the number of calls of the pool's `acquire` that gave a connection, and the number of
-- calls of its `release`.
pub record Metered (W : Type 0) : Type 0 where
  pub world : W
  pub taken : ℕ
  pub given : ℕ

-- The environment with these calls counted.
unfoldable pub metered : {W : Type 0} → Env W → Env (Metered W)
metered env = record {
  is_open = λ m. env.is_open m.world;
  reconnect = λ single m. let (o, w) = env.reconnect single m.world in (o, record m { world = w });
  execute = λ query m. let (o, w) = env.execute query m.world in (o, record m { world = w });
  acquire = λ m.
      let (r, w) = env.acquire m.world in
      (r, record m { world = w; taken = elim r [ ok b ↦ suc m.taken | raised e ↦ m.taken ] });
  release =
      λ m. let (o, w) = env.release m.world in (o, record m { world = w; given = suc m.given });
  sleep = λ delay m. record m { world = env.sleep delay m.world };
}

abbrev pub taken_by : {W : Type 0} → Transaction (Metered W) → ℕ
taken_by t = t.world.taken

abbrev pub given_by : {W : Type 0} → Transaction (Metered W) → ℕ
given_by t = t.world.given

-- A transaction that runs has one connection in use.
abbrev pub in_use : TransactionState → ℕ
in_use started = 1
in_use _ = 0

-- With the offsets `lo` and `hi`, each call of `release`, and the connection in use, is matched by a
-- connection that was taken.
abbrev pub Covered : {W : Type 0} → ℕ → ℕ → Transaction (Metered W) → Type 0
Covered lo hi t = (t.owner ≡ pool) × (lo + given_by t + in_use t.state ≤ hi + taken_by t)

either :
    {W : Type 0} (lo hi : ℕ) (b : Bool) (r r' : Result (Unit {0}) × Transaction (Metered W))
    → Covered lo hi r.1
    → Covered lo hi r'.1
    → Covered lo hi (if b then r else r').1
either lo hi true r r' k l = k
either lo hi false r r' k l = l

module _ {W : Type 0} (env : Env W) where
  start_on-taken :
      (query : String) (single : Bool) (t : Transaction (Metered W))
      → (taken_by (start_on (metered env) query single t).1 ≡ taken_by t)
        × (given_by (start_on (metered env) query single t).1 ≡ given_by t)
        × ((start_on (metered env) query single t).1.owner ≡ t.owner)
  unfolding metered start_on send_start ensure_connected
  start_on-taken query single t = ground arith

  -- A start that gets a connection from the pool has taken one more, whether it succeeds or raises.
  pub start-taken :
      (t : Transaction (Metered W)) (b : Option BorrowReason)
      → t.owner ≡ pool
      → t.state ≡ new_state
      → (env.acquire t.world.world).0 ≡ ok b
      → (taken_by (start (metered env) t).1 ≡ taken_by t + 1)
        × (given_by (start (metered env) t).1 ≡ given_by t)
        × ((start (metered env) t).1.owner ≡ t.owner)
  unfolding metered start start_with make_start_query
  start-taken t b o s h = ground (
    arith,
    start_on-taken (start_transaction_query t.options) false
        (record t { borrowed_for = b; world = ((metered env).acquire t.world).1 }),
  )

  -- A start that raises leaves the transaction new, or in error.
  pub start-raised :
      (t : Transaction (Metered W)) (e : Exception)
      → t.state ≡ new_state
      → (start (metered env) t).0 ≡ raised e
      → in_use (start (metered env) t).1.state ≡ 0
  unfolding metered start start_with start_on send_start make_start_query
  start-raised t e s h = ground arith

  start_on-use :
      (query : String) (single : Bool) (t : Transaction (Metered W))
      → in_use t.state ≡ 0
      → in_use (start_on (metered env) query single t).1.state ≤ 1
  unfolding metered start_on send_start ensure_connected
  start_on-use query single t h = ground arith

  start_with-Covered :
      (lo hi : ℕ) (single : Bool) (t : Transaction (Metered W))
      → Covered lo hi t
      → Covered lo hi (start_with (metered env) single t).1
  unfolding metered start_with make_start_query
  start_with-Covered lo hi single t (o, h) = elim (Result-cases (env.acquire t.world.world).0) [
    | inr (e, refused) ↦ (ground arith, ground arith)
    | inl (b, granted) ↦
        let query = start_transaction_query t.options in
        let t' : Transaction (Metered W) = record t {
          borrowed_for = b;
          world = ((metered env).acquire t.world).1;
        } in
        let (k, l, m) = start_on-taken query single t' in
        let u = start_on-use query single t' in
        (ground (arith, k, l, m, u), ground (arith, k, l, m, u))
  ]

  settle-Covered :
      (lo hi : ℕ) (query : String) (target : TransactionState) (t : Transaction (Metered W))
      → t.state ≡ started
      → in_use target ≡ 0
      → Covered lo hi t
      → Covered lo hi (settle (metered env) query target t).1
  unfolding metered settle give_back
  settle-Covered lo hi query target t s u (o, h) = (ground arith, ground arith)

  commit_query-Covered :
      (lo hi : ℕ) (t : Transaction (Metered W))
      → Covered lo hi t
      → Covered lo hi (commit_query (metered env) t).1
  unfolding commit_query make_commit_query
  commit_query-Covered lo hi t h =
      let k = λ (s : t.state ≡ started). settle-Covered lo hi "COMMIT;" committed t s refl h in
      (ground (arith, k), ground (arith, k))

  rollback_query-Covered :
      (lo hi : ℕ) (t : Transaction (Metered W))
      → Covered lo hi t
      → Covered lo hi (rollback_query (metered env) t).1
  unfolding rollback_query make_rollback_query
  rollback_query-Covered lo hi t h =
      let k = λ (s : t.state ≡ started). settle-Covered lo hi "ROLLBACK;" rolledback t s refl h in
      (ground (arith, k), ground (arith, k))

  exit-Covered :
      (lo hi : ℕ) (failing : Bool) (t : Transaction (Metered W))
      → Covered lo hi t
      → Covered lo hi (exit (metered env) failing t).1
  unfolding exit
  exit-Covered lo hi true t h = rollback_query-Covered lo hi t h
  exit-Covered lo hi false t h = commit_query-Covered lo hi t h

  run_call-Covered :
      (lo hi : ℕ) (c : Call) (t : Transaction (Metered W))
      → Covered lo hi t
      → Covered lo hi (run_call (metered env) c t).1
  unfolding run_call start commit rollback enter
  run_call-Covered lo hi starts t h = start_with-Covered lo hi false t h
  run_call-Covered lo hi commits t h =
      either lo hi t.managed _ (commit_query (metered env) t) h (commit_query-Covered lo hi t h)
  run_call-Covered lo hi rolls_back t h =
      either lo hi t.managed _ (rollback_query (metered env) t) h (rollback_query-Covered lo hi t h)
  run_call-Covered lo hi enters t h =
      either lo hi t.managed _ (start (metered env) (record t { managed = true })) h
        (start_with-Covered lo hi false (record t { managed = true }) h)
  run_call-Covered lo hi (exits failing) t h = exit-Covered lo hi failing t h

  pub run_calls-Covered :
      (lo hi : ℕ) (cs : List Call) (t : Transaction (Metered W))
      → Covered lo hi t
      → Covered lo hi (run_calls (metered env) cs t)
  unfolding run_calls
  run_calls-Covered lo hi [] t h = h
  run_calls-Covered lo hi (c ∷ cs) t h =
      run_calls-Covered lo hi cs (run_call (metered env) c t).1 (run_call-Covered lo hi c t h)
