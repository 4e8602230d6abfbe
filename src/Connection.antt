-- ===== src/Connection.antt =====
-- edgedb/base_con.py, edgedb/asyncio_con.py: a connection as a transaction sees it. What lies behind
-- it, the network and the owner's `acquire` and `release`, is the parameter `Env`.
use edgedb_python.Prelude.{ℕ, String, Bool, true, false, Option, none, some}
use edgedb_python.Errors.Raise.{Exception, Result, new}
use edgedb_python.Errors.Client.{interface_error}

pub data BorrowReason : Type 0 where
  transaction : BorrowReason

-- `BORROW_ERRORS`
unfoldable pub borrow_message : BorrowReason → String
borrow_message transaction =
    "Connection object is borrowed for a transaction. Use the methods on transaction object instead."

-- `borrow_error`
unfoldable pub borrow_error : BorrowReason → Exception
unfolding borrow_message new
borrow_error condition = new interface_error (borrow_message condition)

-- The state `W` stands for everything outside the transaction object. An operation that may raise
-- gives the exception, or `none`.
pub record Env (W : Type 0) : Type 0 where
  -- The connection has an implementation that is not closed.
  pub is_open : W → Bool
  -- `connection._reconnect(single_attempt=...)`
  pub reconnect : Bool → W → Option Exception × W
  -- `impl.privileged_execute(query)`
  pub execute : String → W → Option Exception × W
  -- `owner.acquire()`, with the `_borrowed_for` of the connection that it gives.
  pub acquire : W → Result (Option BorrowReason) × W
  -- `owner.release(connection)`
  pub release : W → Option Exception × W
  -- `asyncio.sleep(delay)`, in milliseconds
  pub sleep : ℕ → W → W

module _ {W : Type 0} (env : Env W) where
  open env use {is_open, reconnect}

  -- `ensure_connected`
  unfoldable pub ensure_connected : Bool → Option BorrowReason → W → Option Exception × W
  ensure_connected single_attempt (some reason) w = (some (borrow_error reason), w)
  ensure_connected single_attempt none w = elim (is_open w) [
    | true ↦ (none, w)
    | false ↦ reconnect single_attempt w
  ]
