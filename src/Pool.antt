-- ===== src/Pool.antt =====
-- edgedb/asyncio_pool.py: the state of a connection pool, and the operations of a connection and of
-- a holder that change it. Holders are numbered in the order of `_holders`; connection objects are
-- numbered as they are made.
pub mod Events
pub mod Closing
pub mod Runs
pub mod Places
pub mod Exclusive
pub mod Kept
pub mod Lossless
pub mod Shut
pub mod Started
pub mod Orderly
pub mod Expired
use edgedb_python.Prelude.{
  ℕ, suc, ◌+◌, ◌≡◌, Bool, true, false, ◌==◌, nat_eq, ltb, List, [], ◌∷◌, Option, none, some,
  if◌then◌else◌, length,
}
use edgedb_python.Errors.Class.{builtin}
use edgedb_python.Errors.Raise.{Exception, Result, ok, raised, new}
use edgedb_python.Connection.{BorrowReason, borrow_error}

-- A call of a holder's `release` that waits for `on_release`, or for an expired connection to close.
pub data Pending : Type 0 where
  hook closing_expired : ℕ → Pending

-- The pool with its holders and the connection objects that it made. `acquiring`, `waiting` and
-- `releasing` stand for the tasks that wait inside `_acquire` and `release`.
pub record Pool : Type 0 where
  pub maxsize : ℕ
  pub generation : ℕ
  pub initialized : Bool
  pub initializing : Bool
  pub closing : Bool
  pub closed : Bool
  -- `_queue`, the last one put first.
  pub queue : List ℕ
  -- Tasks that wait in `_queue.get()`.
  pub waiting : ℕ
  -- Holders that a task took from the queue and has not yet handed out or put back.
  pub acquiring : List ℕ
  pub releasing : List Pending
  -- Holders whose `_in_use` future `aclose` still waits for.
  pub awaited : List ℕ
  -- `_in_use`, `_con` and `_generation` of each holder.
  pub in_use : ℕ → Bool
  pub con : ℕ → Option ℕ
  pub made_in : ℕ → ℕ
  -- `_inner._holder`, `_inner._borrowed_for` and `not is_closed()` of each connection object.
  pub holder : ℕ → Option ℕ
  pub borrowed_for : ℕ → Option BorrowReason
  pub is_open : ℕ → Bool
  -- The number of the next connection object.
  pub next : ℕ

-- Without one occurrence of `h`.
unfoldable pub without : ℕ → List ℕ → List ℕ
without h [] = []
without h (x ∷ xs) = if x == h then xs else x ∷ without h xs

unfoldable pub has : ℕ → List ℕ → Bool
has h [] = false
has h (x ∷ xs) = if x == h then true else has h xs

-- `f` with the value `v` at `k`.
abbrev pub update {ℓ} : {A : Type ℓ} → (ℕ → A) → ℕ → A → ℕ → A
update f k v i = if i == k then v else f i

abbrev pub Step : Type 0
Step = Pool → Result (Unit {0}) × Pool

-- `_queue.put_nowait(holder)`
unfoldable pub put : ℕ → Step
unfolding new
put h p =
    if ltb (length p.queue) p.maxsize
    then (ok tt, record p { queue = h ∷ p.queue })
    else (raised (new (builtin "QueueFull") ""), p)

-- `self._con = self._con._detach()` and the return to the queue, for the connection `c`.
unfoldable pub detach : ℕ → ℕ → Step
unfolding put
detach h c p = elim (p.borrowed_for c) [
  | some reason ↦ (raised (borrow_error reason), p)
  | none ↦ put h (record p {
    con = update p.con h (some p.next);
    holder = update (update p.holder c none) p.next (p.holder c);
    borrowed_for = update p.borrowed_for p.next none;
    is_open = update p.is_open p.next (p.is_open c);
    next = suc p.next;
  })
]

-- `_con`, `_con._inner._holder` and `_generation` of a holder whose new connection is open.
unfoldable pub attach : ℕ → Pool → Pool
attach h p = record p {
  con = update p.con h (some p.next);
  made_in = update p.made_in h p.generation;
  holder = update p.holder p.next (some h);
  borrowed_for = update p.borrowed_for p.next none;
  is_open = update p.is_open p.next true;
  next = suc p.next;
}

-- `PoolConnectionHolder._release`
unfoldable pub release_holder : ℕ → Step
unfolding detach without new
release_holder h p = elim (p.in_use h) [
  | false ↦ (ok tt, p)
  | true ↦
      let q = record p { in_use = update p.in_use h false; awaited = without h p.awaited } in
      elim (p.con h) [
        | none ↦ (raised (new (builtin "AttributeError") "_detach"), q)
        | some c ↦ detach h c q
      ]
]

-- `PoolConnectionHolder._release_on_close`
unfoldable pub release_on_close : ℕ → Step
unfolding release_holder
release_on_close h p =
    let (o, q) = release_holder h p in
    elim o [ raised e ↦ (raised e, q) | ok _ ↦ (ok tt, record q { con = update q.con h none }) ]

-- `PoolConnection._cleanup`
unfoldable pub cleanup : ℕ → Step
unfolding release_on_close
cleanup c p = elim (p.holder c) [ none ↦ (ok tt, p) | some h ↦ release_on_close h p ]

-- `aclose` and `terminate` of a connection: it is closed, and cleaned up.
unfoldable pub close_connection : ℕ → Step
unfolding cleanup
close_connection c p = cleanup c (record p { is_open = update p.is_open c false })

-- `aclose` and `terminate` of a holder.
unfoldable pub close_holder : ℕ → Step
unfolding close_connection
close_holder h p = elim (p.con h) [ none ↦ (ok tt, p) | some c ↦ close_connection c p ]
