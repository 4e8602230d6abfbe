-- ===== src/Tests/Connect.antt =====
-- Connecting in a network whose state is its clock: it times out until a given time.
use edgedb_python.Prelude.Int.{pos}
use edgedb_python.Prelude.{
  refl, inr, inl, String, true, Bool-cases, ℕ, ◌+◌, ◌≡◌, false, ltb, [], ◌∷◌, none, some,
  if◌then◌else◌, arith,
}
use edgedb_python.Errors.Raise.{raised, new, Result}
use edgedb_python.Params.Address.{Address, tcp}
use edgedb_python.Connect.Sockets.{bare_timeout, Sockets, timeout_error, connect_addr}
use edgedb_python.Connect.Sockets.Handled.{IsHandled, IsSockets, connect_addr-IsHandled}
use edgedb_python.Connect.Sockets.Slow.{network_of, slow_connect_is_final}
use edgedb_python.Errors.Class.{builtin}
use edgedb_python.Errors.Client.{client_connection_failed_error}
use edgedb_python.Connect.{other_failure, Network, timed_out, connect}
use edgedb_python.Connect.Deadline.{IsClock, connect_total}

abbrev late : Network ℕ
late = record {
  attempt = λ a w. if ltb w 5 then (some timed_out, w + 1) else (none, w + 1);
  clock = λ w. w;
  pause = λ w. w + 9;
  timeout_message = λ a. "timeout";
  no_connection_message = λ e a n w. "no connection";
}

abbrev local : Address
local = tcp (b'l' ∷ []) (pos 5656)

late-IsClock : IsClock late
late-IsClock = record { forward = λ a w. ground arith; rests = λ w. omega arith }

connect_total_example :
    (r : Result (Unit {0}) × ℕ) × (connect late 3 false 5 (local ∷ []) 0 ≡ some r)
connect_total_example = connect_total late late-IsClock 3 false local [] 0

-- Sockets without TLS trouble, whose state is the clock; connecting takes 7 and the timeout is 5.
abbrev slow_sockets : Sockets ℕ
slow_sockets = record {
  clock = λ w. w;
  create_socket = λ addr w. (none, w);
  setsockopt = λ w. (none, w);
  connect_socket = λ addr n w. if ltb n 7 then (some timeout_error, w + n) else (none, w + 7);
  wrap_socket = λ addr n w. (none, w + 1);
  has_alpn = λ w. true;
  close = λ w. w;
  sync_connect = λ b n w. (none, w + 1);
  raw = λ e. new (builtin "OSError") e.message;
}

slow_sockets-IsSockets : IsSockets slow_sockets
slow_sockets-IsSockets = record {
  connects = λ addr n w. elim (Bool-cases (ltb n 7)) [ inl e ↦ rw e tt | inr e ↦ rw e tt ];
  wraps = λ addr n w. tt;
  greets = λ b n w. tt;
}

-- The same machine with a socket whose option cannot be set.
abbrev stiff_sockets : Sockets ℕ
stiff_sockets = record slow_sockets {
  setsockopt = λ w. (some (record bare_timeout { message = "option" }), w);
}

-- The `OSError` leaves the attempt as it is.
stiff_failure :
    (connect_addr stiff_sockets 9 local 0).0
    ≡ some (other_failure (new (builtin "OSError") "option"))
unfolding connect_addr
stiff_failure = refl

stiff_sockets-IsSockets : IsSockets stiff_sockets
stiff_sockets-IsSockets = record {
  connects = slow_sockets-IsSockets.connects;
  wraps = λ addr n w. tt;
  greets = λ b n w. tt;
}

connect_addr-IsHandled_example :
    IsHandled stiff_sockets 9 local 0 (connect_addr stiff_sockets 9 local 0).0
connect_addr-IsHandled_example =
    connect_addr-IsHandled stiff_sockets stiff_sockets-IsSockets 9 local 0

is_connected : (connect_addr slow_sockets 9 local 0).0 ≡ none
unfolding connect_addr
is_connected = refl

slow_connect_is_final_example :
    (message : String) × (w' : ℕ) × (connect
        (network_of slow_sockets 5 (λ w. w + 9) (λ a. "timeout") (λ e a n w. "no connection"))
        30
        false
        3
        (local ∷ [])
        0
      ≡ some (raised (new client_connection_failed_error message), w'))
slow_connect_is_final_example =
    slow_connect_is_final slow_sockets 5 (λ w. w + 9) (λ a. "timeout") (λ e a n w. "no connection")
      30 2 false local [] 0 refl refl
