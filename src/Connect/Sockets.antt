-- ===== src/Connect/Sockets.antt =====
-- edgedb/blocking_con.py, edgedb/con_utils.py: `_BlockingIOConnectionImpl._connect_addr`, and how it
-- turns the errors of sockets into errors of the client.
pub mod Handled
pub mod Slow
use edgedb_python.Prelude.{
  ℕ, ◌+◌, ◌-◌, leb, Bool, true, false, ◌||◌, List, [], ◌∷◌, Option, none, some, String,
  if◌then◌else◌,
}
use edgedb_python.Errors.Client.{
  client_connection_failed_error, client_connection_failed_temporarily_error,
}
use edgedb_python.Errors.Raise.{Exception, new}
use edgedb_python.Params.Address.{Address, unix, tcp}
use edgedb_python.Connect.{Failure, timed_out, client_failure, other_failure, Network}

pub data Errno : Type 0 where
  econnrefused econnaborted econnreset enoent : Errno
  errno : ℕ → Errno

-- An `OSError`: its `errno`, the numbers that `_extract_errno` finds in its message, whether its class
-- is one of `TEMPORARY_ERRORS`, and the message.
pub record OsError : Type 0 where
  pub code : Option Errno
  pub codes_in_message : List Errno
  pub is_temporary : Bool
  pub message : String

-- What the calls of a socket raise. All but the last two are `OSError`s; `ssl_error` says whether the
-- reason is CERTIFICATE_VERIFY_FAILED.
pub data Thrown : Type 0 where
  timeout_error : Thrown
  gai_error : String → Thrown
  certificate_error os_error : OsError → Thrown
  ssl_error : Bool → OsError → Thrown
  client_error other_error : Exception → Thrown

-- `code in TEMPORARY_ERROR_CODES`
unfoldable pub is_temporary_code : Errno → Bool
is_temporary_code (errno n) = false
is_temporary_code _ = true

unfoldable pub any_temporary : List Errno → Bool
unfolding is_temporary_code
any_temporary [] = false
any_temporary (c ∷ cs) = is_temporary_code c || any_temporary cs

unfoldable pub is_temp : OsError → Bool
unfolding any_temporary
is_temp e = elim e.code [
  | some c ↦ is_temporary_code c
  | none ↦ elim e.codes_in_message [ [] ↦ e.is_temporary | c ∷ cs ↦ any_temporary (c ∷ cs) ]
]

unfoldable pub wrap_error : OsError → Exception
unfolding is_temp new
wrap_error e =
    if is_temp e
    then new client_connection_failed_temporarily_error e.message
    else new client_connection_failed_error e.message

-- `TimeoutError()`
abbrev pub bare_timeout : OsError
bare_timeout = record { code = none; codes_in_message = []; is_temporary = false; message = "" }

-- `except socket.gaierror` and `except OSError`
unfoldable pub wrapped : Thrown → Thrown
unfolding wrap_error new
wrapped timeout_error = client_error (wrap_error bare_timeout)
wrapped (gai_error message) = client_error (new client_connection_failed_temporarily_error message)
wrapped (certificate_error e) = client_error (wrap_error e)
wrapped (os_error e) = client_error (wrap_error e)
wrapped (ssl_error b e) = client_error (wrap_error e)
wrapped t = t

-- The exception with which `_connect_addr` leaves, as the loop of `connect` sees it. An `OSError` that
-- is not wrapped is no error of the client.
unfoldable pub failure_of : (OsError → Exception) → Thrown → Failure
unfolding new
failure_of os timeout_error = timed_out
failure_of os (gai_error message) = other_failure (os (record bare_timeout { message = message }))
failure_of os (certificate_error e) = other_failure (os e)
failure_of os (os_error e) = other_failure (os e)
failure_of os (ssl_error b e) = other_failure (os e)
failure_of os (client_error e) = client_failure e
failure_of os (other_error e) = other_failure e

-- `isinstance(addr, str)`
unfoldable pub is_unix : Address → Bool
is_unix (unix path) = true
is_unix (tcp host port) = false

-- `except OSError` alone, which catches a `gaierror` too
unfoldable pub wrapped_os : Thrown → Thrown
unfolding wrap_error wrapped
wrapped_os (gai_error message) =
    client_error (wrap_error (record bare_timeout { message = message }))
wrapped_os t = wrapped t

-- The sockets of the machine and its clock; `W` is their state.
pub record Sockets (W : Type 0) : Type 0 where
  -- `time.monotonic()`
  pub clock : W → ℕ
  -- `socket.socket(...)` of this address's family
  pub create_socket : Address → W → Option OsError × W
  -- `sock.connect(addr)` with this timeout
  pub connect_socket : Address → ℕ → W → Option Thrown × W
  -- `params.ssl_ctx.wrap_socket(sock, ...)` with this timeout
  pub wrap_socket : Address → ℕ → W → Option Thrown × W
  -- `selected_alpn_protocol() == 'edgedb-binary'`
  pub has_alpn : W → Bool
  -- `sock.close()`
  pub close : W → W
  -- `sock.setsockopt(socket.IPPROTO_TCP, socket.TCP_NODELAY, 1)`
  pub setsockopt : W → Option OsError × W
  -- `proto.sync_connect()` with this timeout, in plain text if `tls_compat`
  pub sync_connect : Bool → ℕ → W → Option Thrown × W
  -- An `OSError` that is not wrapped, as an exception
  pub raw : OsError → Exception

-- A socket is open, with `tls_compat`, or something was raised.
pub data Opened : Type 0 where
  opened : Bool → Opened
  throws : Thrown → Opened

module _ {W : Type 0} (net : Sockets W) (connect_timeout : ℕ) where
  open net use {
    clock, create_socket, connect_socket, wrap_socket, has_alpn, close, setsockopt, sync_connect,
  }

  -- `check_alpn_protocol`
  unfoldable pub check_alpn_protocol : W → Opened
  unfolding new
  check_alpn_protocol w =
      if has_alpn w
      then opened false
      else throws (
          client_error (
            new client_connection_failed_error
              "The server doesn't support the edgedb-binary protocol."))

  -- The new socket of `# Retry in plain text`, connected with this timeout
  unfoldable pub connect_again : Address → ℕ → Option OsError × W → Opened × W
  connect_again addr time_left (some e, w) = (throws (os_error e), w)
  connect_again addr time_left (none, w) = elim (connect_socket addr time_left w).0 [
    | some t ↦ (throws t, (connect_socket addr time_left w).1)
    | none ↦ (opened true, (connect_socket addr time_left w).1)
  ]

  -- `# Retry in plain text`
  unfoldable pub retry_in_plain_text : Address → ℕ → W → Opened × W
  unfolding connect_again
  retry_in_plain_text addr deadline w =
      if leb deadline (clock w)
      then (throws timeout_error, w)
      else connect_again addr (deadline - clock w) (create_socket addr (close w))

  -- The handlers of `wrap_socket`
  unfoldable pub tls_failed : Address → ℕ → Thrown → W → Opened × W
  unfolding retry_in_plain_text wrap_error
  tls_failed addr deadline (certificate_error e) w = (throws (client_error (wrap_error e)), w)
  tls_failed addr deadline (ssl_error true e) w = (throws (client_error (wrap_error e)), w)
  tls_failed addr deadline (ssl_error false e) w = retry_in_plain_text addr deadline w
  tls_failed addr deadline t w = (throws t, w)

  -- `# Upgrade to TLS`
  unfoldable pub upgrade : Address → ℕ → W → Opened × W
  unfolding check_alpn_protocol tls_failed
  upgrade addr deadline w =
      if leb deadline (clock w)
      then (throws timeout_error, w)
      else elim (wrap_socket addr (deadline - clock w) w).0 [
        | none ↦ (
          check_alpn_protocol (wrap_socket addr (deadline - clock w) w).1,
          (wrap_socket addr (deadline - clock w) w).1,
        )
        | some t ↦ tls_failed addr deadline t (wrap_socket addr (deadline - clock w) w).1
      ]

  -- The inner `try` block
  unfoldable pub open_socket : Address → ℕ → W → Opened × W
  unfolding upgrade is_unix
  open_socket addr deadline w = elim (connect_socket addr connect_timeout w).0 [
    | some t ↦ (throws t, (connect_socket addr connect_timeout w).1)
    | none ↦
        if is_unix addr
        then (opened false, (connect_socket addr connect_timeout w).1)
        else upgrade addr deadline (connect_socket addr connect_timeout w).1
  ]

  -- `sock.setsockopt(...)`, for a TCP socket
  unfoldable pub set_no_delay : Address → W → Option OsError × W
  unfolding is_unix
  set_no_delay addr w = if is_unix addr then (none, w) else setsockopt w

  -- `proto.sync_connect()` with this timeout, once the option is set
  unfoldable pub greet : Bool → ℕ → Option OsError × W → Option Thrown × W
  unfolding wrapped_os
  greet tls_compat time_left (some e, w) = (some (os_error e), w)
  greet tls_compat time_left (none, w) = elim (sync_connect tls_compat time_left w).0 [
    | none ↦ (none, (sync_connect tls_compat time_left w).1)
    | some t ↦ (some (wrapped_os t), (sync_connect tls_compat time_left w).1)
  ]

  -- From the check of the time after the inner `try` block to the end
  unfoldable pub handshake : Address → Bool → ℕ → W → Option Thrown × W
  unfolding set_no_delay greet
  handshake addr tls_compat deadline w =
      if leb deadline (clock w)
      then (some timeout_error, w)
      else greet tls_compat (deadline - clock w) (set_no_delay addr w)

  unfoldable pub after_open : Address → ℕ → Opened × W → Option Thrown × W
  unfolding handshake wrapped
  after_open addr deadline (throws t, w) = (some (wrapped t), w)
  after_open addr deadline (opened tls_compat, w) = handshake addr tls_compat deadline w

  -- The outer `try` block
  unfoldable pub use_socket : Address → ℕ → W → Option Failure × W
  unfolding open_socket after_open failure_of
  use_socket addr deadline w =
      let (o, w') = after_open addr deadline (open_socket addr deadline w) in
      elim o [ none ↦ (none, w') | some t ↦ (some (failure_of net.raw t), close w') ]

  -- `_connect_addr`. What creating the socket raises is neither wrapped nor caught.
  unfoldable pub connect_addr : Address → W → Option Failure × W
  unfolding use_socket failure_of
  connect_addr addr w =
      let deadline = clock w + connect_timeout in
      let (o, w') = create_socket addr w in
      elim o [
        | some e ↦ (some (failure_of net.raw (os_error e)), w')
        | none ↦ use_socket addr deadline w'
      ]
