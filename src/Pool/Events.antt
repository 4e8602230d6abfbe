-- ===== src/Pool/Events.antt =====
-- edgedb/asyncio_pool.py: what happens to a pool, cut at the points where a task waits: the calls of
-- `_AsyncIOPoolImpl`, the answers of the network and of the user's hooks, and what connections do.
use edgedb_python.Prelude.{
  ℕ, zero, suc, true, false, ◌==◌, nat_eq, List, [], ◌∷◌, Option, none, some, if◌then◌else◌,
}
use edgedb_python.Errors.Class.{builtin}
use edgedb_python.Errors.Client.{interface_error}
use edgedb_python.Errors.Raise.{Exception, Result, ok, raised, new}
use edgedb_python.Pool.{
  Pool, Pending, hook, closing_expired, update, without, put, attach, release_holder,
  close_connection, close_holder,
}

-- What a call gives: nothing yet, since the task waits; nothing; or a connection.
pub data Reply : Type 0 where
  waits returned : Reply
  connection : ℕ → Reply

abbrev pub Call : Type 0
Call = Pool → Result Reply × Pool

-- A step that gives nothing.
abbrev pub done : Result (Unit {0}) × Pool → Result Reply × Pool
done (ok _, p) = (ok returned, p)
done (raised e, p) = (raised e, p)

-- What follows a step that may raise.
abbrev pub then_call : Result (Unit {0}) → Call → Call
then_call (raised e) k p = (raised e, p)
then_call (ok _) k p = k p

-- `_check_init`
unfoldable pub check_init : Pool → Result (Unit {0})
unfolding new
check_init p =
    if p.initialized
    then (if p.closed then raised (new interface_error "pool is closed") else ok tt)
    else if p.initializing
    then raised (
        new interface_error
          "pool is being initialized, but not yet ready: likely there is a race between creating a pool and using it")
    else raised (new interface_error "pool is not initialized")

-- `except (Exception, CancelledError): self._queue.put_nowait(ch); raise`
unfoldable pub give_up : ℕ → Exception → Call
unfolding without put
give_up h e p =
    let (o, q) = put h (record p { acquiring = without h p.acquiring }) in
    elim o [ ok _ ↦ (raised e, q) | raised full ↦ (raised full, q) ]

-- `elif self._generation != self._pool._generation`: the call of `aclose` raises, since it takes no
-- timeout.
unfoldable pub check_generation : ℕ → Call
unfolding give_up new
check_generation h p = elim (p.made_in h == p.generation) [
  | true ↦ (ok waits, p)
  | false ↦
      give_up h (new (builtin "TypeError") "aclose() got an unexpected keyword argument 'timeout'")
        p
]

-- `PoolConnectionHolder.acquire` up to its first wait: for the network, or for `on_acquire`.
unfoldable pub enter_acquire : ℕ → Call
enter_acquire h p = elim (p.con h) [
  | none ↦ (ok waits, p)
  | some c ↦ elim (p.is_open c) [
    | false ↦ (ok waits, record p { con = update p.con h none })
    | true ↦ check_generation h p
  ]
]

-- `_queue.get()` that gives the holder `h` and leaves `rest`, and what follows it.
unfoldable pub got : ℕ → List ℕ → Call
got h rest p = enter_acquire h (record p { queue = rest; acquiring = h ∷ p.acquiring })

-- `_queue.get()`, which does not wait if there is a holder.
unfoldable pub take : Call
unfolding got
take p = elim p.queue [
  | [] ↦ (ok waits, record p { waiting = suc p.waiting })
  | h ∷ rest ↦ got h rest p
]

-- `_acquire`
unfoldable pub acquire : Call
unfolding take new
acquire p =
    if p.closing
    then (raised (new interface_error "pool is closing"), p)
    else then_call (check_init p) take p

-- A task that waits in `_queue.get()` goes on if there is a holder.
unfoldable pub wake : Call
unfolding got
wake p = elim p.waiting [
  | zero ↦ (ok waits, p)
  | suc n ↦ elim p.queue [ [] ↦ (ok waits, p) | h ∷ rest ↦ got h rest (record p { waiting = n }) ]
]

-- `PoolConnectionHolder.connect` when the network answers: it fails, or there is a new connection.
unfoldable pub connect : ℕ → Option Exception → Call
unfolding give_up attach
connect h (some e) p = give_up h e p
connect h none p = (ok waits, attach h p)

-- The end of `acquire` after `on_acquire` returned or raised; a pool without the hook goes on at
-- once.
unfoldable pub prepare : ℕ → Option Exception → Call
unfolding give_up without new
prepare h (some e) p = give_up h e (close_holder h p).1
prepare h none p = (
  elim (p.con h) [
    | none ↦ raised (new (builtin "AttributeError") "_options")
    | some c ↦ ok (connection c)
  ],
  record p { acquiring = without h p.acquiring; in_use = update p.in_use h true },
)

-- `PoolConnectionHolder.release` up to its first wait.
unfoldable pub begin_release : ℕ → Call
unfolding new
begin_release h p = elim (p.in_use h) [
  | false ↦ (
    raised (
        new (builtin "AttributeError")
          "module 'edgedb.errors' has no attribute 'InternalClientError'"),
    p,
  )
  | true ↦ elim (p.con h) [
    | none ↦ (raised (new (builtin "AttributeError") "is_closed"), p)
    | some c ↦ elim (p.is_open c) [
      | false ↦ (ok returned, p)
      | true ↦ (
        ok waits,
        record p {
          releasing =
              (if p.made_in h == p.generation then hook h else closing_expired c) ∷ p.releasing;
        },
      )
    ]
  ]
]

-- `release` of a connection of this pool.
unfoldable pub release : ℕ → Call
unfolding begin_release
release c p = elim (p.holder c) [
  | none ↦ (ok returned, p)
  | some h ↦ then_call (check_init p) (begin_release h) p
]

-- A waiting `release` goes on: `on_release` returned or raised, or the connection is closed.
unfoldable pub finish_release : Pending → Option Exception → Call
finish_release (closing_expired c) o p = done (close_connection c p)
finish_release (hook h) none p = done (release_holder h p)
finish_release (hook h) (some e) p = elim (p.con h) [
  | none ↦ (raised e, p)
  | some c ↦ (raised e, (close_connection c p).1)
]

-- The first of the waiting releases goes on.
unfoldable pub resume : Option Exception → Call
unfolding finish_release
resume o p = elim p.releasing [
  | [] ↦ (ok waits, p)
  | r ∷ rest ↦ finish_release r o (record p { releasing = rest })
]
