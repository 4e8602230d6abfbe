-- ===== src/Tests/Params.antt =====
-- Connection parameters over a small system.
use edgedb_python.Prelude.Int.{ℤ, pos}
use edgedb_python.Prelude.{
  ◌≤◌, ◌-◌, ◌≡◌, ◌↔◌, refl, inl, String, true, false, List, [], ◌∷◌, none, some, if◌then◌else◌,
  length, All, or_else, ◌==◌, string_eq,
}
use edgedb_python.Errors.Class.{builtin}
use edgedb_python.Errors.Raise.{Result, ok, raised, new}
use edgedb_python.Scram.Bytes.{Bytes}
use edgedb_python.Scram.Text.{split, before, after, begins}
use edgedb_python.Params.Credentials.{
  Json, text, null, Credentials, Describes, validate_credentials, validate_credentials-Describes,
  field,
}
use edgedb_python.Params.System.{System, Arguments, Url, one_host, port_list, is_on, contains}
use edgedb_python.Params.Hosts.{environment_port, validate_port_spec, parse_hostlist}
use edgedb_python.Params.Query.{
  url_query, read_query, fill_host, query_port, query_verify, settings_with,
}
use edgedb_python.Params.Dsn.{find_dsn, read_dsn, read_uri, read_url, from_url}
use edgedb_python.Params.Address.{
  unix, tcp, address_of, tls_of, ConnectionParameters, choose_hosts, choose_ports, addresses,
  parameters, parse_connect_dsn_and_args,
}
use edgedb_python.Params.Sockets.{IsUnix, IsSocketPath, each_host_reached, socket_paths_refused}
use edgedb_python.Params.Explicit.{explicit_wins, admin_only_sockets}

abbrev alice : Bytes
alice = b'a' ∷ []

abbrev bob : Bytes
bob = b'b' ∷ []

abbrev server : Bytes
server = b's' ∷ b'.' ∷ b'c' ∷ []

-- One digit.
abbrev digit : Bytes → Result ℤ
digit [] = raised (new (builtin "ValueError") "invalid literal")
digit (x ∷ xs) = ok (pos (x - 48))

abbrev some_url : Url
some_url = record {
  scheme = b'e' ∷ b'd' ∷ b'g' ∷ b'e' ∷ b'd' ∷ b'b' ∷ [];
  netloc = b'b' ∷ b'@' ∷ b's' ∷ b'.' ∷ b'c' ∷ b':' ∷ b'7' ∷ [];
  path = b'/' ∷ b'd' ∷ [];
  username = some bob;
  password = none;
  query = b'?' ∷ [];
}

abbrev small : System
small = record {
  getenv = λ k. if k == "EDGEDB_PASSWORD" then some bob else none;
  is_windows = false;
  toml_exists = false;
  instance_name = none;
  load_credentials = λ _. raised (new (builtin "FileNotFoundError") "no file");
  isidentifier = λ _. true;
  urlparse = λ _. ok some_url;
  parse_qs = λ _. ok (("color", (alice, bob ∷ [])) ∷ []);
  int = digit;
  decimal = λ _. b'7' ∷ [];
  lower = λ t. t;
  join = λ h t. t;
}

abbrev dsn_text : Bytes
dsn_text = b'e' ∷ b'd' ∷ b'g' ∷ b'e' ∷ b'd' ∷ b'b' ∷ b':' ∷ b'/' ∷ b'/' ∷ []

abbrev given : Arguments
given = record {
  dsn = some dsn_text;
  host = none;
  port = none;
  user = some alice;
  password = none;
  database = none;
  admin = none;
  tls_ca_file = none;
  tls_verify_hostname = none;
  server_settings = none;
}

abbrev found : ConnectionParameters
found = record {
  user = alice;
  password = some bob;
  database = b'd' ∷ [];
  server_settings = some (("color", bob) ∷ []);
  ssl_ctx = some (record {
    cafile = none;
    cadata = none;
    default_certs = true;
    certifi = false;
    check_hostname = true;
  });
}

given_run : parse_connect_dsn_and_args small given ≡ ok (tcp server (pos 7) ∷ [], found)
unfolding parse_connect_dsn_and_args find_dsn read_dsn read_uri read_url url_query read_query
    fill_host from_url choose_hosts choose_ports addresses parameters query_port query_verify
    parse_hostlist contains after address_of before settings_with tls_of
given_run = refl

explicit_wins_example :
    (elim given.user [ none ↦ found.user | some u ↦ u ] ≡ found.user)
    × (or_else given.password found.password ≡ found.password)
    × (elim given.database [ none ↦ found.database | some d ↦ d ] ≡ found.database)
    × ((if is_on given.admin then none else found.ssl_ctx) ≡ found.ssl_ctx)
explicit_wins_example = explicit_wins small given (tcp server (pos 7) ∷ []) found given_run

abbrev admin_given : Arguments
admin_given = record given {
  admin = some true;
  dsn = none;
  host = some (one_host (b'/' ∷ b'r' ∷ []));
}

abbrev admin_found : ConnectionParameters
admin_found = record found {
  database = b'e' ∷ b'd' ∷ b'g' ∷ b'e' ∷ b'd' ∷ b'b' ∷ [];
  server_settings = none;
  ssl_ctx = none;
}

abbrev admin_socket : Bytes
admin_socket =
    b'.' ∷ b's' ∷ b'.' ∷ b'E' ∷ b'D' ∷ b'G' ∷ b'E' ∷ b'D' ∷ b'B' ∷ b'.' ∷ b'a' ∷ b'd' ∷ b'm' ∷ b'i'
    ∷ b'n' ∷ b'.' ∷ b'7' ∷ []

admin_run : parse_connect_dsn_and_args small admin_given ≡ ok (unix admin_socket ∷ [], admin_found)
unfolding parse_connect_dsn_and_args find_dsn read_dsn fill_host choose_hosts choose_ports addresses
    parameters environment_port validate_port_spec address_of
admin_run = refl

admin_only_sockets_example :
    All IsUnix (unix admin_socket ∷ []) × (1 ≤ length (unix admin_socket ∷ []))
admin_only_sockets_example =
    admin_only_sockets small admin_given (unix admin_socket ∷ []) admin_found refl admin_run

abbrev two_hosts : List Bytes
two_hosts = server ∷ (b'/' ∷ b'r' ∷ []) ∷ []

two_ports :
    choose_ports small two_hosts (some (port_list (pos 5 ∷ pos 6 ∷ []))) ≡ ok (pos 5 ∷ pos 6 ∷ [])
unfolding choose_ports validate_port_spec
two_ports = refl

abbrev plain_socket : Bytes
plain_socket = b'.' ∷ b's' ∷ b'.' ∷ b'E' ∷ b'D' ∷ b'G' ∷ b'E' ∷ b'D' ∷ b'B' ∷ b'.' ∷ b'7' ∷ []

two_addresses :
    addresses small false two_hosts (pos 5 ∷ pos 6 ∷ [])
    ≡ ok (tcp server (pos 5) ∷ unix plain_socket ∷ [])
unfolding addresses address_of
two_addresses = refl

each_host_reached_example :
    (length (tcp server (pos 5) ∷ unix plain_socket ∷ []) ≡ length two_hosts)
    × (1 ≤ length (tcp server (pos 5) ∷ unix plain_socket ∷ []))
each_host_reached_example =
    each_host_reached small two_hosts (some (port_list (pos 5 ∷ pos 6 ∷ []))) (pos 5 ∷ pos 6 ∷ [])
      (tcp server (pos 5) ∷ unix plain_socket ∷ []) two_ports two_addresses

abbrev full_path : Bytes
full_path = b'/' ∷ plain_socket

full_path-IsSocketPath : IsSocketPath full_path
unfolding begins contains
full_path-IsSocketPath = (refl, refl)

socket_paths_refused_example :
    addresses small true (full_path ∷ []) (pos 7 ∷ [])
    ≡ raised (new (builtin "ValueError") "admin connections are only supported over UNIX sockets")
socket_paths_refused_example =
    socket_paths_refused small (full_path ∷ []) (pos 7 ∷ []) (full_path-IsSocketPath, tt)

abbrev host_text : Bytes
host_text = b'a' ∷ b':' ∷ b'4' ∷ b',' ∷ b'b' ∷ []

host_text_run : parse_hostlist small host_text none ≡ ok (alice ∷ bob ∷ [], pos 4 ∷ pos 5656 ∷ [])
unfolding parse_hostlist contains split after before
host_text_run = refl

abbrev stored : List (String × Json)
stored = ("user", text alice) ∷ ("host", text server) ∷ ("database", null) ∷ []

abbrev stored_credentials : Credentials
stored_credentials = record {
  port = 5656;
  user = alice;
  host = some server;
  password = none;
  database = none;
  tls_cert_data = none;
  tls_verify_hostname = none;
}

stored-Describes : Describes stored stored_credentials
unfolding field
stored-Describes = record {
  ports = inl (refl, refl);
  users = refl;
  hosts = refl;
  databases = refl;
  passwords = refl;
  certs = refl;
  verifies = refl;
}

validate_credentials-Describes_example :
    (validate_credentials stored ≡ ok stored_credentials) ↔ Describes stored stored_credentials
validate_credentials-Describes_example = validate_credentials-Describes stored stored_credentials
