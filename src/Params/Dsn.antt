-- ===== src/Params/Dsn.antt =====
-- edgedb/con_utils.py: where the parameters of a connection come from: the arguments, then a DSN or
-- the stored credentials of an instance.
use edgedb_python.Prelude.Int.{pos}
use edgedb_python.Prelude.{
  Bool, true, false, ◌||◌, ◌==◌, nat_eq, string_eq, [], ◌∷◌, ◌++◌, Option, none, some,
  if◌then◌else◌, or_else,
}
use edgedb_python.Errors.Class.{builtin}
use edgedb_python.Errors.Client.{client_error, client_connection_error}
use edgedb_python.Errors.Raise.{Result, ok, raised, new, ◌>>=◌, ◌>>◌, require}
use edgedb_python.Scram.Bytes.{Bytes}
use edgedb_python.Scram.Text.{after, same}
use edgedb_python.Params.Credentials.{Credentials, validate_credentials}
use edgedb_python.Params.System.{
  System, Url, Arguments, Hosts, one_host, Ports, one_port, is_set, has_host, has_port, starts_with,
  contains,
}
use edgedb_python.Params.Query.{fill_host, url_query}

abbrev edgedb_text : Bytes
edgedb_text = b'e' ∷ b'd' ∷ b'g' ∷ b'e' ∷ b'd' ∷ b'b' ∷ []

abbrev edgedbadmin_text : Bytes
edgedbadmin_text = b'e' ∷ b'd' ∷ b'g' ∷ b'e' ∷ b'd' ∷ b'b' ∷ b'a' ∷ b'd' ∷ b'm' ∷ b'i' ∷ b'n' ∷ []

abbrev scheme_end : Bytes
scheme_end = b':' ∷ b'/' ∷ b'/' ∷ []

-- The parameters so far, `using_credentials` and `tls_ca_data`.
pub record Found : Type 0 where
  pub arguments : Arguments
  pub using_credentials : Bool
  pub tls_ca_data : Option Bytes

-- The part of `netloc` after an `@`.
unfoldable pub hostspec_of : Bytes → Bytes
hostspec_of netloc = if contains (b'@' ∷ []) netloc then after b'@' netloc else netloc

-- The database that the path of the DSN names.
unfoldable pub path_database : Bytes → Option Bytes
path_database [] = none
path_database (x ∷ xs) = some (if x == b'/' then xs else x ∷ xs)

-- A text that is there and not empty.
unfoldable pub if_set : Option Bytes → Option Bytes
if_set (some (x ∷ xs)) = some (x ∷ xs)
if_set _ = none

-- What the DSN adds to the arguments before its query, with the hosts and ports that it gave.
unfoldable pub from_url : Url → Option Hosts → Option Ports → Arguments → Arguments
unfolding same path_database if_set
from_url parsed host port a = record a {
  admin = or_else a.admin (some (same parsed.scheme edgedbadmin_text));
  host = host;
  port = port;
  database = or_else a.database (path_database parsed.path);
  user = or_else a.user (if_set parsed.username);
  password = or_else a.password (if_set parsed.password);
}

-- The DSN is a URI.
unfoldable pub is_uri : Bytes → Bool
unfolding starts_with
is_uri dsn =
    starts_with (edgedb_text ++ scheme_end) dsn || starts_with (edgedbadmin_text ++ scheme_end) dsn

-- `if parsed.scheme not in ('edgedb', 'edgedbadmin'): raise ...`
unfoldable pub check_scheme : Url → Result (Unit {0})
unfolding same new
check_scheme parsed =
    require (same parsed.scheme edgedb_text || same parsed.scheme edgedbadmin_text) (
      new (builtin "ValueError")
        "invalid DSN: scheme is expected to be \"edgedb\" or \"edgedbadmin\"")

module _ (sys : System) where
  open sys use {
    getenv, toml_exists, instance_name, load_credentials, isidentifier, urlparse, parse_qs, lower,
  }

  -- The DSN, or the instance that the environment or the project names where no option is given.
  unfoldable pub find_dsn : Arguments → Result (Option Bytes)
  unfolding is_set has_host has_port new
  find_dsn a =
      if is_set a.dsn
        || has_host a.host
        || has_port a.port
        || is_set (getenv "EDGEDB_HOST")
        || is_set (getenv "EDGEDB_PORT")
      then ok a.dsn
      else if is_set (getenv "EDGEDB_INSTANCE")
      then ok (getenv "EDGEDB_INSTANCE")
      else if toml_exists
      then elim instance_name [
        | none ↦ raised (
            new client_connection_error
              "Found `edgedb.toml` but the project is not initialized. Run `edgedb project init`.")
        | some text ↦ text >>= λ name. ok (some name)
      ]
      else raised
          (new client_connection_error "no `edgedb.toml` found and no connection options specified")

  -- The branch for a DSN that is a URI.
  unfoldable pub read_url : Url → Arguments → Result Arguments
  unfolding check_scheme hostspec_of
  read_url parsed a = do
    check_scheme parsed
    hosts ← fill_host sys (hostspec_of parsed.netloc) a.host a.port
    url_query sys parsed.query (from_url parsed hosts.0 hosts.1 a)

  -- What the credentials `c` add to the arguments.
  unfoldable pub with_credentials : Credentials → Arguments → Found
  with_credentials c a = record {
    arguments = record a {
      port = or_else a.port (some (one_port (pos c.port)));
      user = or_else a.user (some c.user);
      host = or_else a.host (elim c.host [ none ↦ none | some h ↦ some (one_host h) ]);
      password = or_else a.password c.password;
      database = or_else a.database c.database;
      tls_verify_hostname = or_else a.tls_verify_hostname c.tls_verify_hostname;
    };
    using_credentials = true;
    tls_ca_data = elim a.tls_ca_file [ none ↦ c.tls_cert_data | some f ↦ none ];
  }

  -- The branch for the name of an instance.
  unfoldable pub read_instance : Bytes → Arguments → Result Found
  unfolding with_credentials new
  read_instance dsn a = do
    require (isidentifier dsn)
        (new (builtin "ValueError") "dsn is neither a edgedb:// URI nor valid instance name")
    elim (load_credentials dsn >>= λ d. validate_credentials d) [
      | raised e ↦ raised (new client_error "cannot read credentials of instance")
      | ok c ↦ ok (with_credentials c a)
    ]

  -- A URI is split by `urlparse` first.
  unfoldable pub read_uri : Bytes → Arguments → Result Found
  read_uri dsn a = do
    parsed ← urlparse dsn
    a' ← read_url parsed a
    ok (record { arguments = a'; using_credentials = false; tls_ca_data = none })

  -- The arguments completed by the DSN.
  unfoldable pub read_dsn : Option Bytes → Arguments → Result Found
  unfolding is_uri
  read_dsn (some (x ∷ xs)) a = elim (is_uri (x ∷ xs)) [
    | true ↦ read_uri (x ∷ xs) a
    | false ↦ read_instance (x ∷ xs) a
  ]
  read_dsn _ a = ok (record { arguments = a; using_credentials = false; tls_ca_data = none })
