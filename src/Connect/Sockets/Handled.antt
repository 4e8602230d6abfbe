-- ===== src/Connect/Sockets/Handled.antt =====
-- What leaves an attempt to connect.
use edgedb_python.Prelude.{
  ◌⊎◌, arith, ◌≡◌, ℕ, ◌+◌, ◌-◌, leb, Bool, true, false, Option, none, some, inl, inr, refl, ◌≡◌,
  ◌⊎◌, Bool-cases, Option-cases,
}
use edgedb_python.Params.Address.{Address}
use edgedb_python.Connect.{Failure, timed_out, client_failure, other_failure}
use edgedb_python.Connect.Sockets.{
  connect_again, use_socket, OsError, set_no_delay, greet, is_unix, Thrown, timeout_error,
  gai_error, certificate_error, os_error, ssl_error, client_error, other_error, wrapped, wrapped_os,
  failure_of, Sockets, Opened, opened, throws, check_alpn_protocol, retry_in_plain_text, tls_failed,
  upgrade, open_socket, handshake, after_open, connect_addr,
}

-- An `OSError` or an error of the client.
abbrev pub IsExpected : Option Thrown → Type 0
IsExpected none = Unit
IsExpected (some (other_error e)) = ⊥
IsExpected (some _) = Unit

abbrev Fine : Opened → Type 0
Fine (opened b) = Unit
Fine (throws t) = IsExpected (some t)

-- What may leave the outer `try` block, whose inner block ends in the state `w`
abbrev Settled : {W : Type 0} → Sockets W → Address → W → Option Thrown → Type 0
Settled net addr w none = Unit
Settled net addr w (some timeout_error) = Unit
Settled net addr w (some (client_error e)) = Unit
Settled net addr w (some (os_error o)) = (is_unix addr ≡ false) × ((net.setsockopt w).0 ≡ some o)
Settled net addr w (some _) = ⊥

-- What an attempt to connect from the state `w` gives: success, a timeout, an error of the client, or
-- the bare `OSError` of creating the socket, or of setting the option of the opened TCP socket.
abbrev pub IsHandled : {W : Type 0} → Sockets W → ℕ → Address → W → Option Failure → Type 0
IsHandled net timeout addr w none = Unit
IsHandled net timeout addr w (some timed_out) = Unit
IsHandled net timeout addr w (some (client_failure e)) = Unit
IsHandled net timeout addr w (some (other_failure e)) =
    ((o : OsError) × ((net.create_socket addr w).0 ≡ some o) × (e ≡ net.raw o))
    ⊎ ((o : OsError) × (is_unix addr ≡ false)
        × ((net.setsockopt
              (open_socket net timeout addr (net.clock w + timeout)
                (net.create_socket addr w).1).1).0
            ≡ some o)
        × (e ≡ net.raw o))

module _ {W : Type 0} (net : Sockets W) (addr : Address) (w : W) where
  wrapped-Settled : (t : Thrown) → IsExpected (some t) → Settled net addr w (some (wrapped t))
  unfolding wrapped
  wrapped-Settled timeout_error h = tt
  wrapped-Settled (gai_error m) h = tt
  wrapped-Settled (certificate_error e) h = tt
  wrapped-Settled (os_error e) h = tt
  wrapped-Settled (ssl_error b e) h = tt
  wrapped-Settled (client_error e) h = tt
  wrapped-Settled (other_error e) h = absurd h

  wrapped_os-Settled : (t : Thrown) → IsExpected (some t) → Settled net addr w (some (wrapped_os t))
  unfolding wrapped_os wrapped
  wrapped_os-Settled timeout_error h = tt
  wrapped_os-Settled (gai_error m) h = tt
  wrapped_os-Settled (certificate_error e) h = tt
  wrapped_os-Settled (os_error e) h = tt
  wrapped_os-Settled (ssl_error b e) h = tt
  wrapped_os-Settled (client_error e) h = tt
  wrapped_os-Settled (other_error e) h = absurd h

module _ {W : Type 0} (net : Sockets W) (timeout : ℕ) (addr : Address) (w : W) where
  failure_of-IsHandled :
      (t : Thrown)
      → Settled net addr
          (open_socket net timeout addr (net.clock w + timeout) (net.create_socket addr w).1).1
          (some t)
      → IsHandled net timeout addr w (some (failure_of net.raw t))
  unfolding failure_of
  failure_of-IsHandled timeout_error h = tt
  failure_of-IsHandled (gai_error m) h = absurd h
  failure_of-IsHandled (certificate_error e) h = absurd h
  failure_of-IsHandled (os_error e) (u, h) = inr (e, u, h, refl)
  failure_of-IsHandled (ssl_error b e) h = absurd h
  failure_of-IsHandled (client_error e) h = tt
  failure_of-IsHandled (other_error e) h = absurd h

-- The sockets raise `OSError`s and errors of the client.
pub record IsSockets {W : Type 0} (net : Sockets W) : Type 0 where
  pub connects : (addr : Address) (n : ℕ) (w : W) → IsExpected (net.connect_socket addr n w).0
  pub wraps : (addr : Address) (n : ℕ) (w : W) → IsExpected (net.wrap_socket addr n w).0
  pub greets : (b : Bool) (n : ℕ) (w : W) → IsExpected (net.sync_connect b n w).0

module _ {W : Type 0} (net : Sockets W) (v : IsSockets net) (timeout : ℕ) where
  connect_again-Fine :
      (addr : Address) (n : ℕ) (r : Option OsError × W)
      → Fine (connect_again net timeout addr n r).0
  unfolding connect_again
  connect_again-Fine addr n (some e, w) = tt
  connect_again-Fine addr n (none, w) = elim (Option-cases (net.connect_socket addr n w).0) [
    | inl e ↦ rw (e, connect_again) tt
    | inr (t, e) ↦ rw (e, connect_again) (rw e at (v.connects addr n w))
  ]

  retry-Fine :
      (addr : Address) (deadline : ℕ) (w : W)
      → Fine (retry_in_plain_text net timeout addr deadline w).0
  unfolding retry_in_plain_text
  retry-Fine addr deadline w = elim (Bool-cases (leb deadline (net.clock w))) [
    | inl late ↦ rw (late, retry_in_plain_text) tt
    | inr early ↦
        rw (early, retry_in_plain_text)
          (connect_again-Fine addr (deadline - net.clock w) (net.create_socket addr (net.close w)))
  ]

  tls_failed-Fine :
      (addr : Address) (deadline : ℕ) (t : Thrown) (w : W)
      → IsExpected (some t)
      → Fine (tls_failed net timeout addr deadline t w).0
  unfolding tls_failed
  tls_failed-Fine addr deadline (certificate_error e) w h = tt
  tls_failed-Fine addr deadline (ssl_error true e) w h = tt
  tls_failed-Fine addr deadline (ssl_error false e) w h = retry-Fine addr deadline w
  tls_failed-Fine addr deadline timeout_error w h = h
  tls_failed-Fine addr deadline (gai_error m) w h = h
  tls_failed-Fine addr deadline (os_error e) w h = h
  tls_failed-Fine addr deadline (client_error e) w h = h
  tls_failed-Fine addr deadline (other_error e) w h = h

  alpn-Fine : (w : W) → Fine (check_alpn_protocol net timeout w)
  unfolding check_alpn_protocol
  alpn-Fine w = elim (Bool-cases (net.has_alpn w)) [
    | inl e ↦ rw (e, check_alpn_protocol) tt
    | inr e ↦ rw (e, check_alpn_protocol) tt
  ]

  upgrade-Fine :
      (addr : Address) (deadline : ℕ) (w : W) → Fine (upgrade net timeout addr deadline w).0
  unfolding upgrade
  upgrade-Fine addr deadline w = elim (Bool-cases (leb deadline (net.clock w))) [
    | inl late ↦ rw (late, upgrade) tt
    | inr early ↦
        let n = deadline - net.clock w in
        let w' = (net.wrap_socket addr n w).1 in
        elim (Option-cases (net.wrap_socket addr n w).0) [
          | inl e ↦ rw (early, upgrade) (rw e (alpn-Fine w'))
          | inr (t, e) ↦
              rw (early, upgrade)
                (rw e (tls_failed-Fine addr deadline t w' (rw e at (v.wraps addr n w))))
        ]
  ]

  open-Fine :
      (addr : Address) (deadline : ℕ) (w : W) → Fine (open_socket net timeout addr deadline w).0
  unfolding open_socket
  open-Fine addr deadline w =
      let w' = (net.connect_socket addr timeout w).1 in
      elim (Option-cases (net.connect_socket addr timeout w).0) [
        | inr (t, e) ↦ rw (e, open_socket) (rw e at (v.connects addr timeout w))
        | inl e ↦ elim (Bool-cases (is_unix addr)) [
          | inl local ↦ rw (e, open_socket) (rw local tt)
          | inr remote ↦ rw (e, open_socket) (rw remote (upgrade-Fine addr deadline w'))
        ]
      ]

  greet-Settled :
      (addr : Address) (b : Bool) (n : ℕ) (w w' : W)
      → Settled net addr w' (greet net timeout b n (none, w)).0
  unfolding greet
  greet-Settled addr b n w w' = elim (Option-cases (net.sync_connect b n w).0) [
    | inl e ↦ rw (e, greet) tt
    | inr (t, e) ↦ rw (e, greet) (wrapped_os-Settled net addr w' t (rw e at (v.greets b n w)))
  ]

  set-Settled :
      (addr : Address) (b : Bool) (n : ℕ) (w : W) (r : Option OsError × W)
      → ((o : OsError) → r.0 ≡ some o → (is_unix addr ≡ false) × ((net.setsockopt w).0 ≡ some o))
      → Settled net addr w (greet net timeout b n r).0
  unfolding greet
  set-Settled addr b n w (some e, w') h = h e refl
  set-Settled addr b n w (none, w') h = greet-Settled addr b n w' w

  option-raised :
      (addr : Address) (w : W) (o : OsError)
      → (set_no_delay net timeout addr w).0 ≡ some o
      → (is_unix addr ≡ false) × ((net.setsockopt w).0 ≡ some o)
  unfolding set_no_delay
  option-raised addr w o h = (ground arith, ground arith)

  handshake-Settled :
      (addr : Address) (b : Bool) (deadline : ℕ) (w : W)
      → Settled net addr w (handshake net timeout addr b deadline w).0
  unfolding handshake
  handshake-Settled addr b deadline w = elim (Bool-cases (leb deadline (net.clock w))) [
    | inl late ↦ rw (late, handshake) tt
    | inr early ↦
        rw (early, handshake)
          (set-Settled addr b (deadline - net.clock w) w (set_no_delay net timeout addr w)
            (option-raised addr w))
  ]

  after_open-Settled :
      (addr : Address) (deadline : ℕ) (o : Opened × W)
      → Fine o.0
      → Settled net addr o.1 (after_open net timeout addr deadline o).0
  unfolding after_open
  after_open-Settled addr deadline (throws t, w) h = wrapped-Settled net addr w t h
  after_open-Settled addr deadline (opened b, w) h = handshake-Settled addr b deadline w

  use_socket-IsHandled :
      (addr : Address) (w : W)
      → IsHandled net timeout addr w
          (use_socket net timeout addr (net.clock w + timeout) (net.create_socket addr w).1).0
  unfolding use_socket
  use_socket-IsHandled addr w =
      let deadline = net.clock w + timeout in
      let o = open_socket net timeout addr deadline (net.create_socket addr w).1 in
      let settled =
        after_open-Settled addr deadline o (open-Fine addr deadline (net.create_socket addr w).1) in
      elim (Option-cases (after_open net timeout addr deadline o).0) [
        | inl e ↦ rw (e, use_socket) tt
        | inr (t, e) ↦
            rw (e, use_socket) (failure_of-IsHandled net timeout addr w t (rw e at settled))
      ]

  -- If connecting a socket, upgrading it to TLS and the handshake of the protocol raise only `OSError`s
  -- and errors of the client, an attempt to connect succeeds, times out, fails with an error of the
  -- client, or fails with the bare `OSError` that creating its first socket raised, or, for a TCP
  -- address, that `setsockopt` raised once the socket was open. No other `OSError` leaves it.
  pub connect_addr-IsHandled :
      (addr : Address) (w : W) → IsHandled net timeout addr w (connect_addr net timeout addr w).0
  unfolding connect_addr failure_of
  connect_addr-IsHandled addr w = elim (Option-cases (net.create_socket addr w).0) [
    | inl e ↦ rw (e, connect_addr) (use_socket-IsHandled addr w)
    | inr (o, e) ↦ rw (e, connect_addr) (inl (o, e, refl))
  ]
