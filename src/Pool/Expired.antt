-- ===== src/Pool/Expired.antt =====
-- Acquiring from a pool whose connections are expired.
use edgedb_python.Prelude.{ℕ, ◌<◌, ◌≡◌, true, false, nat_eq, List, ◌∷◌, some, arith, length}
use edgedb_python.Errors.Class.{builtin}
use edgedb_python.Errors.Raise.{Exception, raised, new}
use edgedb_python.Pool.{Pool, put, without}
use edgedb_python.Pool.Events.{
  give_up, check_generation, enter_acquire, got, take, check_init, acquire,
}
use edgedb_python.Pool.Runs.{expires, step}

abbrev pub timeout_refused : Exception
unfolding new
timeout_refused = new (builtin "TypeError") "aclose() got an unexpected keyword argument 'timeout'"

-- After the connections of a running pool are expired, `acquire` on a holder with an open
-- connection of the generation before raises TypeError, and puts the holder back: the pool is as it
-- was, so that each later `acquire` raises too.
pub expired_acquire :
    (h c : ℕ) (rest : List ℕ) (p : Pool)
    → p.initialized ≡ true
    → p.closing ≡ false
    → p.closed ≡ false
    → p.queue ≡ h ∷ rest
    → length rest < p.maxsize
    → p.con h ≡ some c
    → p.is_open c ≡ true
    → p.made_in h ≡ p.generation
    → acquire (step expires p) ≡ (raised timeout_refused, step expires p)
unfolding acquire take got enter_acquire check_generation give_up check_init put without step new
expired_acquire h c rest p started going unclosed queued room has_con live made = ground arith
