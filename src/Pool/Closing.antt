-- ===== src/Pool/Closing.antt =====
-- edgedb/asyncio_pool.py: how a pool is made, started, closed and terminated.
use edgedb_python.Prelude.Int.{ℤ, pos, negsuc}
use edgedb_python.Prelude.{
  ℕ, zero, suc, ◌-◌, Bool, true, false, nat_eq, ltb, List, [], ◌∷◌, Option, none, some,
  if◌then◌else◌,
}
use edgedb_python.Errors.Class.{builtin}
use edgedb_python.Errors.Client.{interface_error}
use edgedb_python.Errors.Raise.{Exception, Result, ok, raised, new}
use edgedb_python.Pool.{Pool, Step, put, attach, close_holder}
use edgedb_python.Pool.Events.{waits, returned, Call, done, then_call, check_init}

-- A pool that is not started.
unfoldable pub new_pool : ℕ → Pool
new_pool maxsize = record {
  maxsize = maxsize;
  generation = 0;
  initialized = false;
  initializing = false;
  closing = false;
  closed = false;
  queue = [];
  waiting = 0;
  acquiring = [];
  releasing = [];
  awaited = [];
  in_use = λ h. false;
  con = λ h. none;
  made_in = λ h. 0;
  holder = λ c. none;
  borrowed_for = λ c. none;
  is_open = λ c. false;
  next = 0;
}

-- `_AsyncIOPoolImpl.__init__`: the pool, and `_minsize`. `is_pool_connection` says whether
-- `connection_class` is a subclass of PoolConnection.
unfoldable pub init : ℤ → ℤ → Bool → Result (Pool × ℕ)
unfolding new_pool new
init (pos (suc m)) (pos n) is_pool_connection =
    if ltb (suc m) n
    then raised (new (builtin "ValueError") "min_size is greater than max_size")
    else if is_pool_connection
    then ok (new_pool (suc m), n)
    else raised (
        new (builtin "TypeError")
          "connection_class is expected to be a subclass of edgedb.asyncio_pool.PoolConnection")
init (pos (suc m)) (negsuc n) is_pool_connection =
    raised (new (builtin "ValueError") "min_size is expected to be greater or equal to zero")
init max_size min_size is_pool_connection =
    raised (new (builtin "ValueError") "max_size is expected to be greater than zero")

-- The holders below `n` are put into the queue.
unfoldable pub fill : ℕ → Step
unfolding put
fill zero p = (ok tt, p)
fill (suc n) p = let (o, q) = fill n p in elim o [ raised e ↦ (raised e, q) | ok _ ↦ put n q ]

-- The first of two results that raises.
first_error : Result (Unit {0}) → Result (Unit {0}) → Result (Unit {0})
first_error (raised e) r = raised e
first_error (ok _) r = r

-- `connect()` of a holder while the pool is started; `answers` says how the network answers.
unfoldable pub connect_first : (ℕ → Option Exception) → ℕ → Step
connect_first answers h p = elim (answers h) [ some e ↦ (raised e, p) | none ↦ (ok tt, attach h p) ]

-- `gather` of `connect()` for `n` holders, from the holder below `h` downwards.
unfoldable pub connect_more : (ℕ → Option Exception) → ℕ → ℕ → Step
unfolding connect_first first_error
connect_more answers zero h p = (ok tt, p)
connect_more answers (suc n) zero p = (ok tt, p)
connect_more answers (suc n) (suc h) p =
    let (o, q) = connect_first answers h p in
    let (o', r) = connect_more answers n h q in (first_error o o', r)

-- `_initialize`
unfoldable pub initialize : (ℕ → Option Exception) → ℕ → Step
unfolding connect_first connect_more
initialize answers zero p = (ok tt, p)
initialize answers (suc more) p =
    let (o, q) = connect_first answers (p.maxsize - 1) p in
    elim o [ raised e ↦ (raised e, q) | ok _ ↦ connect_more answers more (p.maxsize - 1) q ]

-- `_async__init__` after its guards.
unfoldable pub start_up : (ℕ → Option Exception) → ℕ → Call
unfolding fill initialize
start_up answers minsize p =
    let (o, q) = fill p.maxsize (record p { initializing = true }) in
    elim o [
      | raised e ↦ (raised e, q)
      | ok _ ↦
          let (o', r) = initialize answers minsize q in
          done (o', record r { initializing = false; initialized = true })
    ]

-- `_async__init__`
unfoldable pub start : (ℕ → Option Exception) → ℕ → Call
unfolding start_up new
start answers minsize p =
    if p.initialized
    then (ok returned, p)
    else if p.initializing
    then (raised (new interface_error "pool is being initialized in another task"), p)
    else if p.closed
    then (raised (new interface_error "pool is closed"), p)
    else start_up answers minsize p

-- `for ch in self._holders: ch.terminate()`, for the holders below `n`.
unfoldable pub close_each : ℕ → Step
unfolding close_holder
close_each zero p = (ok tt, p)
close_each (suc n) p =
    let (o, q) = close_each n p in elim o [ raised e ↦ (raised e, q) | ok _ ↦ close_holder n q ]

-- `gather` of `ch.aclose()` for the holders below `n`: an error does not keep the others from closing.
unfoldable pub close_all : ℕ → Step
unfolding close_holder first_error
close_all zero p = (ok tt, p)
close_all (suc n) p =
    let (o, q) = close_all n p in let (o', r) = close_holder n q in (first_error o o', r)

-- `_AsyncIOPoolImpl.terminate` after its guards.
unfoldable pub close_now : Call
unfolding close_each
close_now p =
    let (o, q) = close_each p.maxsize p in
    then_call o (λ r. (ok returned, record r { closed = true })) q

-- `_AsyncIOPoolImpl.terminate`
unfoldable pub terminate : Call
unfolding close_now
terminate p = if p.closed then (ok returned, p) else then_call (check_init p) close_now p

-- The holders below `n` that are in use.
unfoldable pub used : ℕ → Pool → List ℕ
used zero p = []
used (suc n) p = if p.in_use n then n ∷ used n p else used n p

-- `aclose` after its guards, up to its wait for the holders that are in use.
unfoldable pub await_used : Call
unfolding used
await_used p = (ok waits, record p { closing = true; awaited = used p.maxsize p })

-- `aclose` up to its wait.
unfoldable pub begin_close : Call
unfolding await_used
begin_close p = if p.closed then (ok returned, p) else then_call (check_init p) await_used p

-- `finally: self._closed = True; self._closing = False`
unfoldable pub finish : Pool → Pool
finish p = record p { closed = true; closing = false }

-- The rest of `aclose`, once no holder is awaited any more.
unfoldable pub end_close : Call
unfolding close_all terminate finish
end_close p = elim p.awaited [
  | h ∷ hs ↦ (ok waits, p)
  | [] ↦
      let (o, q) = close_all p.maxsize p in
      elim o [
        | ok _ ↦ (ok returned, finish q)
        | raised e ↦
            let (t, r) = terminate q in
            (elim t [ raised e' ↦ raised e' | ok _ ↦ raised e ], finish r)
      ]
]
