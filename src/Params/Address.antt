-- ===== src/Params/Address.antt =====
-- edgedb/con_utils.py: `_parse_connect_dsn_and_args`, from the defaults to the addresses.
use edgedb_python.Prelude.Int.{ℤ}
use edgedb_python.Prelude.{
  Bool, true, false, not, ◌&&◌, ◌||◌, nat_eq, List, [], ◌∷◌, ◌++◌, Option, none, some,
  if◌then◌else◌, or_else,
}
use edgedb_python.Errors.Class.{builtin}
use edgedb_python.Errors.Raise.{Result, ok, raised, new, ◌>>=◌}
use edgedb_python.Scram.Bytes.{Bytes}
use edgedb_python.Scram.Text.{begins}
use edgedb_python.Params.System.{
  System, Arguments, Hosts, one_host, host_list, Ports, is_set, has_host, has_port, is_on, contains,
}
use edgedb_python.Params.Hosts.{environment_port, validate_port_spec}
use edgedb_python.Params.Query.{Query, fill_host}
use edgedb_python.Params.Dsn.{Found, find_dsn, read_dsn, if_set}

-- The path of a UNIX socket, or a host and a port.
pub data Address : Type 0 where
  unix : Bytes → Address
  tcp : Bytes → ℤ → Address

-- What is set on `ssl_ctx`.
pub record Tls : Type 0 where
  pub cafile : Option Bytes
  pub cadata : Option Bytes
  pub default_certs : Bool
  pub certifi : Bool
  pub check_hostname : Bool

pub record ConnectionParameters : Type 0 where
  pub user : Bytes
  pub password : Option Bytes
  pub database : Bytes
  pub server_settings : Option Query
  pub ssl_ctx : Option Tls

abbrev edgedb_text : Bytes
edgedb_text = b'e' ∷ b'd' ∷ b'g' ∷ b'e' ∷ b'd' ∷ b'b' ∷ []

abbrev localhost : Bytes
localhost = b'l' ∷ b'o' ∷ b'c' ∷ b'a' ∷ b'l' ∷ b'h' ∷ b'o' ∷ b's' ∷ b't' ∷ []

abbrev run_edgedb : Bytes
run_edgedb = b'/' ∷ b'r' ∷ b'u' ∷ b'n' ∷ b'/' ∷ b'e' ∷ b'd' ∷ b'g' ∷ b'e' ∷ b'd' ∷ b'b' ∷ []

abbrev var_run_edgedb : Bytes
var_run_edgedb =
    b'/' ∷ b'v' ∷ b'a' ∷ b'r' ∷ b'/' ∷ b'r' ∷ b'u' ∷ b'n' ∷ b'/' ∷ b'e' ∷ b'd' ∷ b'g' ∷ b'e' ∷ b'd'
    ∷ b'b' ∷ []

abbrev pub socket_part : Bytes
socket_part = b'.' ∷ b's' ∷ b'.' ∷ b'E' ∷ b'D' ∷ b'G' ∷ b'E' ∷ b'D' ∷ b'B' ∷ b'.' ∷ []

abbrev admin_part : Bytes
admin_part = b'a' ∷ b'd' ∷ b'm' ∷ b'i' ∷ b'n' ∷ b'.' ∷ []

-- `if not isinstance(host, list): host = [host]`
unfoldable pub hosts_of : Option Hosts → List Bytes
hosts_of none = []
hosts_of (some (one_host h)) = h ∷ []
hosts_of (some (host_list hs)) = hs

-- The TLS settings of a connection that is not for the administrator.
unfoldable pub tls_of : Bool → Option Bytes → Option Bytes → Option Bool → Tls
unfolding is_set
tls_of is_windows ca_file ca_data verify_hostname =
    if is_set ca_file || is_set ca_data
    then record {
      cafile = ca_file;
      cadata = ca_data;
      default_certs = false;
      certifi = false;
      check_hostname = elim verify_hostname [ none ↦ false | some v ↦ v ];
    }
    else record {
      cafile = none;
      cadata = none;
      default_certs = true;
      certifi = is_windows;
      check_hostname = elim verify_hostname [ none ↦ true | some v ↦ v ];
    }

module _ (sys : System) where
  open sys use {getenv, is_windows, join, decimal}

  -- The hosts where none is given.
  unfoldable pub default_hosts : Bool → Bool → List Bytes
  default_hosts using_credentials admin =
      (if is_windows || using_credentials then [] else run_edgedb ∷ var_run_edgedb ∷ [])
      ++ (if admin then [] else localhost ∷ [])

  -- The hosts, by the arguments, by `EDGEDB_HOST` or by default, with the ports that come along.
  unfoldable pub choose_hosts :
      Bool → Bool → Option Hosts → Option Ports → Result (List Bytes × Option Ports)
  unfolding default_hosts hosts_of has_host
  choose_hosts using_credentials admin host port = do
    r ← fill_host sys (elim (getenv "EDGEDB_HOST") [ none ↦ [] | some spec ↦ spec ]) host port
    ok ((if has_host r.0 then hosts_of r.0 else default_hosts using_credentials admin), r.1)

  -- The ports, one for each host.
  unfoldable pub choose_ports : List Bytes → Option Ports → Result (List ℤ)
  unfolding has_port
  choose_ports hosts port = elim (if has_port port then port else none) [
    | some ports ↦ validate_port_spec hosts ports
    | none ↦ environment_port sys (getenv "EDGEDB_PORT") >>= λ ports. validate_port_spec hosts ports
  ]

  -- The name of the socket for a port.
  unfoldable pub sock_name : Bool → ℤ → Bytes
  sock_name admin p = socket_part ++ ((if admin then admin_part else []) ++ decimal p)

  -- One round of the loop over hosts and ports: the address, and whether `have_unix_sockets` is set.
  unfoldable pub address_of : Bool → Bytes → ℤ → Option Address × Bool
  unfolding begins contains sock_name
  address_of admin h p =
      if begins b'/' h
      then (if contains socket_part h
          then (some (unix h), false)
          else (some (unix (join h (sock_name admin p))), true))
      else if admin
      then (none, false)
      else (some (tcp h p), false)

  -- The loop: the addresses, and `have_unix_sockets`.
  unfoldable pub address_loop : Bool → List Bytes → List ℤ → List Address × Bool
  address_loop admin (h ∷ hs) (p ∷ ps) =
      let rest = address_loop admin hs ps in
      let (found, flag) = address_of admin h p in
      (elim found [ none ↦ rest.0 | some a ↦ a ∷ rest.0 ], flag || rest.1)
  address_loop admin _ _ = ([], false)

  is_empty : List Address → Bool
  is_empty [] = true
  is_empty (a ∷ rest) = false

  -- The addresses, with the checks after the loop.
  unfoldable pub addresses : Bool → List Bytes → List ℤ → Result (List Address)
  unfolding address_loop is_empty new
  addresses admin hosts ports =
      let (addrs, have_unix_sockets) = address_loop admin hosts ports in
      if admin && not have_unix_sockets
      then raised
          (new (builtin "ValueError") "admin connections are only supported over UNIX sockets")
      else if is_empty addrs
      then raised
          (new (builtin "ValueError") "could not determine the database address to connect to")
      else ok addrs

  -- The parameters besides the addresses.
  unfoldable pub parameters : Found → ConnectionParameters
  unfolding if_set is_on
  parameters found = record {
    user = elim (or_else found.arguments.user (if_set (getenv "EDGEDB_USER"))) [
      | none ↦ edgedb_text
      | some u ↦ u
    ];
    password = or_else found.arguments.password (getenv "EDGEDB_PASSWORD");
    database = elim (or_else found.arguments.database (getenv "EDGEDB_DATABASE")) [
      | none ↦ edgedb_text
      | some d ↦ d
    ];
    server_settings = found.arguments.server_settings;
    ssl_ctx =
        if is_on found.arguments.admin
        then none
        else some (
            tls_of is_windows found.arguments.tls_ca_file found.tls_ca_data
              found.arguments.tls_verify_hostname);
  }

  -- `_parse_connect_dsn_and_args`
  unfoldable pub parse_connect_dsn_and_args :
      Arguments → Result (List Address × ConnectionParameters)
  parse_connect_dsn_and_args a = do
    dsn ← find_dsn sys a
    found ← read_dsn sys dsn a
    hosts ←
        choose_hosts found.using_credentials (is_on found.arguments.admin) found.arguments.host
          found.arguments.port
    ports ← choose_ports hosts.0 hosts.1
    addrs ← addresses (is_on found.arguments.admin) hosts.0 ports
    ok (addrs, parameters found)
