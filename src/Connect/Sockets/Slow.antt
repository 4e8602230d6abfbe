-- ===== src/Connect/Sockets/Slow.antt =====
-- An attempt to connect whose socket takes too long, in the loop of `connect`, which is the same in
-- edgedb/blocking_con.py and edgedb/asyncio_con.py.
use edgedb_python.Prelude.{if◌then◌else◌, ℕ, ◌+◌, ◌≡◌, refl, ap, Bool, List, ◌∷◌, some, String, suc}
use edgedb_python.Errors.Client.{client_connection_failed_error}
use edgedb_python.Errors.Class.{has_tag}
use edgedb_python.Errors.Raise.{Exception, new, raised}
use edgedb_python.Params.Address.{Address}
use edgedb_python.Connect.{none, gives_up, client_failure, Network, connect, rounds, round, verdict}
use edgedb_python.Connect.Sockets.{
  use_socket, timeout_error, wrapped, wrap_error, is_temp, failure_of, Sockets, open_socket,
  after_open, connect_addr,
}

-- The network of the loop, over sockets.
abbrev pub network_of :
    {W : Type 0}
    → Sockets W
    → ℕ
    → (W → W)
    → (Address → String)
    → (Exception → Address → ℕ → W → String)
    → Network W
network_of net connect_timeout pause timeout_message no_connection_message = record {
  attempt = connect_addr net connect_timeout;
  clock = net.clock;
  pause = pause;
  timeout_message = timeout_message;
  no_connection_message = no_connection_message;
}

module _ {W : Type 0} (net : Network W) (wait fuel : ℕ) (single : Bool) (addr : Address)
    (addrs : List Address) (w : W) where
  -- An exception without the tag SHOULD_RECONNECT ends the loop.
  final_failure :
      (net.attempt addr w).0 ≡ some (client_failure (new client_connection_failed_error ""))
      → connect net wait single (suc fuel) (addr ∷ addrs) w
        ≡ some (
          raised (
              new client_connection_failed_error (
                net.no_connection_message
                  (new client_connection_failed_error "")
                  addr
                  1
                  (net.attempt addr w).1)),
          (net.attempt addr w).1,
        )
  unfolding connect rounds round verdict has_tag new
  final_failure e =
      let max_time = if single then 0 else net.clock w + wait in
      let m =
        net.no_connection_message (new client_connection_failed_error "") addr 1
          (net.attempt addr w).1 in
      let ended : round net max_time 1 (addr ∷ addrs) w
          ≡ (gives_up (new client_connection_failed_error m), (net.attempt addr w).1) =
        rw (e, round) refl in
      rw (ended, rounds) (ap (λ r. some (raised (new client_connection_failed_error m), r.1)) ended)

module _ {W : Type 0} (net : Sockets W) (timeout : ℕ) where
  -- The `TimeoutError` of the socket is an `OSError` to the handler around it.
  slow_attempt :
      (addr : Address) (w : W)
      → (net.create_socket addr w).0 ≡ none
      → (net.connect_socket addr timeout (net.create_socket addr w).1).0 ≡ some timeout_error
      → (connect_addr net timeout addr w).0
        ≡ some (client_failure (new client_connection_failed_error ""))
  unfolding connect_addr use_socket open_socket after_open wrapped wrap_error is_temp failure_of
  slow_attempt addr w c e = rw (c, connect_addr) (rw (e, use_socket) refl)

  -- When the socket of the first address is created but connecting it takes longer than
  -- `connect_timeout`, `connect` raises ClientConnectionFailedError in the first round, however long it
  -- may wait for the server.
  pub slow_connect_is_final :
      (pause : W → W) (timeout_message : Address → String)
      (no_connection_message : Exception → Address → ℕ → W → String) (wait fuel : ℕ) (single : Bool)
      (addr : Address) (addrs : List Address) (w : W)
      → (net.create_socket addr w).0 ≡ none
      → (net.connect_socket addr timeout (net.create_socket addr w).1).0 ≡ some timeout_error
      → (message : String) × (w' : W) × (connect
            (network_of net timeout pause timeout_message no_connection_message)
            wait
            single
            (suc fuel)
            (addr ∷ addrs)
            w
          ≡ some (raised (new client_connection_failed_error message), w'))
  slow_connect_is_final pause timeout_message no_connection_message wait fuel single addr addrs w c
        e =
      let w' = (connect_addr net timeout addr w).1 in
      (
        no_connection_message (new client_connection_failed_error "") addr 1 w',
        w',
        final_failure (network_of net timeout pause timeout_message no_connection_message) wait fuel
            single addr addrs w (slow_attempt addr w c e),
      )
