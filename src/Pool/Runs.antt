-- ===== src/Pool/Runs.antt =====
-- Runs of a pool: sequences of calls, answers, and changes that connections undergo.
use edgedb_python.Prelude.{
  ℕ, suc, Bool, true, false, ◌&&◌, nat_eq, List, [], ◌∷◌, Option, none, some, if◌then◌else◌,
}
use edgedb_python.Errors.Raise.{Exception}
use edgedb_python.Connection.{BorrowReason}
use edgedb_python.Pool.{Pool, has, update, close_connection}
use edgedb_python.Pool.Events.{acquire, wake, connect, prepare, release, resume}
use edgedb_python.Pool.Closing.{terminate, begin_close, end_close}

-- The numbers are those of holders in `connects` and `prepares`, else those of connections.
pub data Event : Type 0 where
  acquires wakes expires terminates begins_close ends_close : Event
  connects prepares : ℕ → Option Exception → Event
  releases closes drops returns : ℕ → Event
  borrows : ℕ → BorrowReason → Event
  resumes : Option Exception → Event

abbrev pub is_none : Option ℕ → Bool
is_none none = true
is_none (some c) = false

-- The pool after an event. A holder is connected or prepared only while it is being
-- acquired, and connected only if it has no connection; `drops` is the server that closes a connection, `borrows` and `returns` are the start and the
-- end of a transaction.
unfoldable pub step : Event → Pool → Pool
step acquires p = (acquire p).1
step wakes p = (wake p).1
step expires p = record p { generation = suc p.generation }
step terminates p = (terminate p).1
step begins_close p = (begin_close p).1
step ends_close p = (end_close p).1
step (connects h o) p = if has h p.acquiring && is_none (p.con h) then (connect h o p).1 else p
step (prepares h o) p = if has h p.acquiring then (prepare h o p).1 else p
step (releases c) p = (release c p).1
step (closes c) p = (close_connection c p).1
step (drops c) p = record p { is_open = update p.is_open c false }
step (borrows c reason) p = record p { borrowed_for = update p.borrowed_for c (some reason) }
step (returns c) p = record p { borrowed_for = update p.borrowed_for c none }
step (resumes o) p = (resume o p).1

unfoldable pub run : List Event → Pool → Pool
unfolding step
run [] p = p
run (e ∷ es) p = run es (step e p)
