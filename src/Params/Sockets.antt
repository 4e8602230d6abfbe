-- ===== src/Params/Sockets.antt =====
-- The addresses that the loop at the end of `_parse_connect_dsn_and_args` finds.
use edgedb_python.Prelude.Int.{ℤ}
use edgedb_python.Prelude.{
  ◌≤◌, ◌≡◌, refl, true, false, List, [], ◌∷◌, Option, some, arith, length, All,
}
use edgedb_python.Errors.Class.{builtin}
use edgedb_python.Errors.Raise.{ok, raised, new}
use edgedb_python.Scram.Bytes.{Bytes}
use edgedb_python.Scram.Text.{begins}
use edgedb_python.Params.System.{System, Ports, contains}
use edgedb_python.Params.Address.{
  Address, unix, tcp, socket_part, address_of, address_loop, addresses, choose_ports,
}
use edgedb_python.Params.Hosts.{validate_port_spec-length}

pub IsUnix : Address → Type 0
IsUnix (unix path) = Unit
IsUnix (tcp host port) = ⊥

-- The full path of a socket.
abbrev pub IsSocketPath : Bytes → Type 0
IsSocketPath h = (begins b'/' h ≡ true) × (contains socket_part h ≡ true)

module _ (sys : System) where
  address_of_admin :
      (h : Bytes) (p : ℤ) (a : Address) → (address_of sys true h p).0 ≡ some a → IsUnix a
  unfolding address_of IsUnix
  address_of_admin h p a e = ground arith

  loop_admin : (hs : List Bytes) (ps : List ℤ) → All IsUnix (address_loop sys true hs ps).0
  unfolding address_loop
  loop_admin [] ps = tt
  loop_admin (h ∷ hs) [] = tt
  loop_admin (h ∷ hs) (p ∷ ps) = grind (arith, loop_admin hs ps, address_of_admin h p)

  loop_all :
      (hs : List Bytes) (ps : List ℤ)
      → length ps ≡ length hs
      → length (address_loop sys false hs ps).0 ≡ length hs
  unfolding address_loop address_of
  loop_all [] [] e = refl
  loop_all [] (p ∷ ps) e = ground arith
  loop_all (h ∷ hs) [] e = ground arith
  loop_all (h ∷ hs) (p ∷ ps) e = ground (arith, loop_all hs ps)

  loop_paths :
      (hs : List Bytes) (ps : List ℤ)
      → All IsSocketPath hs
      → (address_loop sys true hs ps).1 ≡ false
  unfolding address_loop address_of
  loop_paths [] ps a = refl
  loop_paths (h ∷ hs) [] a = refl
  loop_paths (h ∷ hs) (p ∷ ps) a = let e = loop_paths hs ps a.1 in ground (arith, a.0.0, a.0.1)

  -- For the administrator, hosts that are all full paths of sockets are refused with a ValueError
  -- that asks for UNIX sockets.
  pub socket_paths_refused :
      (hs : List Bytes) (ps : List ℤ)
      → All IsSocketPath hs
      → addresses sys true hs ps
        ≡ raised
            (new (builtin "ValueError") "admin connections are only supported over UNIX sockets")
  unfolding addresses
  socket_paths_refused hs ps a = let e = loop_paths hs ps a in ground arith

  pub addresses_admin :
      (hs : List Bytes) (ps : List ℤ) (addrs : List Address)
      → addresses sys true hs ps ≡ ok addrs
      → All IsUnix addrs × (1 ≤ length addrs)
  unfolding addresses
  addresses_admin hs ps addrs e = grind (arith, loop_admin hs ps)

  choose_ports-length :
      (hs : List Bytes) (port : Option Ports) (ps : List ℤ)
      → choose_ports sys hs port ≡ ok ps
      → length ps ≡ length hs
  unfolding choose_ports
  choose_ports-length hs port ps e = grind (arith, validate_port_spec-length)

  -- Without the admin flag, the ports that are chosen for the hosts lead to as many addresses as
  -- there are hosts, and no call succeeds without an address.
  pub each_host_reached :
      (hs : List Bytes) (port : Option Ports) (ps : List ℤ) (addrs : List Address)
      → choose_ports sys hs port ≡ ok ps
      → addresses sys false hs ps ≡ ok addrs
      → (length addrs ≡ length hs) × (1 ≤ length addrs)
  unfolding addresses
  each_host_reached hs port ps addrs chosen e =
      let same = choose_ports-length hs port ps chosen in ground (arith, loop_all hs ps same)
