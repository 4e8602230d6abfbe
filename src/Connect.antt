-- ===== src/Connect.antt =====
-- edgedb/asyncio_con.py: `_AsyncIOConnectionImpl.connect`, the loop that tries the addresses of a
-- server until one answers or the time is over. Times are in milliseconds.
pub mod Deadline
pub mod Sockets
use edgedb_python.Prelude.{
  ℕ, zero, suc, ◌+◌, ◌≤◌, Bool, true, false, ◌&&◌, ◌||◌, ◌==◌, nat_eq, ltb, String, List, [], ◌∷◌,
  Option, none, some, if◌then◌else◌,
}
use edgedb_python.Errors.Class.{has_tag, should_reconnect}
use edgedb_python.Errors.Client.{client_connection_timeout_error}
use edgedb_python.Errors.Raise.{Exception, Result, ok, raised, new}
use edgedb_python.Params.Address.{Address}

-- How an attempt fails: by the timeout, by a ClientConnectionError, or by another exception.
pub data Failure : Type 0 where
  timed_out : Failure
  client_failure : Exception → Failure
  other_failure : Exception → Failure

-- The network and the clock; `W` is their state.
pub record Network (W : Type 0) : Type 0 where
  -- `wait_for(self._connect_addr(...), config.connect_timeout)`
  pub attempt : Address → W → Option Failure × W
  -- `time.monotonic()`
  pub clock : W → ℕ
  -- `asyncio.sleep(0.01 + random.random() * 0.2)`
  pub pause : W → W
  -- The messages of a timeout and of `render_client_no_connection_error`.
  pub timeout_message : Address → String
  pub no_connection_message : Exception → Address → ℕ → W → String

-- How a round over the addresses ends.
pub data Round : Type 0 where
  connected : Round
  gives_up : Exception → Round
  next_round : Round

module _ {W : Type 0} (net : Network W) (max_time : ℕ) where
  open net use {attempt, clock, pause, timeout_message, no_connection_message}

  -- `iteration == 1 or time.monotonic() < max_time`
  unfoldable pub may_wait : ℕ → W → Bool
  may_wait iteration w = iteration == 1 || ltb (clock w) max_time

  -- The handlers of a failed attempt: the exception that ends the loop.
  unfoldable pub verdict : ℕ → Address → Failure → W → Option Exception
  unfolding may_wait new
  verdict iteration addr timed_out w =
      if may_wait iteration w
      then none
      else some (new client_connection_timeout_error (timeout_message addr))
  verdict iteration addr (client_failure e) w =
      if has_tag e.cls should_reconnect && may_wait iteration w
      then none
      else some (new e.cls (no_connection_message e addr iteration w))
  verdict iteration addr (other_failure e) w = some e

  -- `for addr in addrs`
  unfoldable pub round : ℕ → List Address → W → Round × W
  round iteration [] w = (next_round, w)
  round iteration (addr ∷ addrs) w =
      let rest = round iteration addrs (attempt addr w).1 in
      elim (attempt addr w).0 [
        | none ↦ (connected, (attempt addr w).1)
        | some failure ↦ elim (verdict iteration addr failure (attempt addr w).1) [
          | some e ↦ (gives_up e, (attempt addr w).1)
          | none ↦ rest
        ]
      ]

  -- `while True`, on fuel: `none` when the fuel runs out.
  unfoldable pub rounds : ℕ → ℕ → List Address → W → Option (Result (Unit {0}) × W)
  rounds zero iteration addrs w = none
  rounds (suc fuel) iteration addrs w =
      let rest = rounds fuel (iteration + 1) addrs (pause (round iteration addrs w).1) in
      elim (round iteration addrs w).0 [
        | connected ↦ some (ok tt, (round iteration addrs w).1)
        | gives_up e ↦ some (raised e, (round iteration addrs w).1)
        | next_round ↦ rest
      ]

-- `connect`; `wait_until_available` is that of the configuration.
unfoldable pub connect :
    {W : Type 0} → Network W → ℕ → Bool → ℕ → List Address → W → Option (Result (Unit {0}) × W)
connect net wait_until_available single_attempt fuel addrs w =
    rounds net (if single_attempt then 0 else net.clock w + wait_until_available) fuel 1 addrs w
