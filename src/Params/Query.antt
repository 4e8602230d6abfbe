-- ===== src/Params/Query.antt =====
-- edgedb/con_utils.py: the query of a DSN.
use edgedb_python.Prelude.Dict.{get, put}
use edgedb_python.Prelude.{
  String, Bool, true, false, ◌||◌, ◌==◌, nat_eq, string_eq, List, [], ◌∷◌, Option, none, some,
  if◌then◌else◌, or_else,
}
use edgedb_python.Errors.Class.{builtin}
use edgedb_python.Errors.Raise.{Result, ok, raised, new, ◌>>=◌}
use edgedb_python.Scram.Bytes.{Bytes}
use edgedb_python.Scram.Text.{split, same}
use edgedb_python.Params.System.{
  System, Arguments, Hosts, host_list, Ports, port_list, has_host, has_port,
}
use edgedb_python.Params.Hosts.{ints, parse_hostlist}

abbrev pub Query : Type 0
Query = List (String × Bytes)

-- `text in {...}`
one_of : Bytes → List Bytes → Bool
one_of x [] = false
one_of x (y ∷ ys) = same x y || one_of x ys

abbrev yes_texts : List Bytes
yes_texts =
    (b'1' ∷ [])
    ∷ (b'y' ∷ b'e' ∷ b's' ∷ [])
    ∷ (b't' ∷ b'r' ∷ b'u' ∷ b'e' ∷ [])
    ∷ (b'y' ∷ [])
    ∷ (b't' ∷ [])
    ∷ (b'o' ∷ b'n' ∷ [])
    ∷ []

abbrev no_texts : List Bytes
no_texts =
    (b'0' ∷ [])
    ∷ (b'n' ∷ b'o' ∷ [])
    ∷ (b'f' ∷ b'a' ∷ b'l' ∷ b's' ∷ b'e' ∷ [])
    ∷ (b'n' ∷ [])
    ∷ (b'f' ∷ [])
    ∷ (b'o' ∷ b'f' ∷ b'f' ∷ [])
    ∷ []

-- `val[-1]` of a list of values.
last_value : Bytes → List Bytes → Bytes
last_value v [] = v
last_value v (w ∷ ws) = last_value w ws

-- `query[key] = val[-1]` for each key.
last_values : List (String × (Bytes × List Bytes)) → Query
unfolding last_value
last_values [] = []
last_values ((k, vs) ∷ d) = (k, last_value vs.0 vs.1) ∷ last_values d

-- `query.pop(key)`: the dict afterwards.
remove : String → Query → Query
remove key [] = []
remove key ((k, v) ∷ d) = if k == key then d else (k, v) ∷ remove key d

remove_all : List String → Query → Query
unfolding remove
remove_all [] d = d
remove_all (k ∷ ks) d = remove_all ks (remove k d)

-- The keys that are no server settings.
abbrev own_keys : List String
own_keys =
    "port" ∷ "host" ∷ "dbname" ∷ "database" ∷ "user" ∷ "password" ∷ "tls_ca_file"
    ∷ "tls_verify_hostname" ∷ []

-- `{**query, **server_settings}`
merge : Query → Query → Query
unfolding put
merge q [] = q
merge q ((k, v) ∷ s) = merge (put k v q) s

-- The server settings after the query of the DSN.
unfoldable pub settings_with : Query → Option Query → Option Query
unfolding merge
settings_with [] settings = settings
settings_with (x ∷ xs) none = some (x ∷ xs)
settings_with (x ∷ xs) (some settings) = some (merge (x ∷ xs) settings)

module _ (sys : System) where
  open sys use {
    getenv, toml_exists, instance_name, load_credentials, isidentifier, urlparse, parse_qs, lower,
  }

  -- `_parse_verify_hostname`
  unfoldable pub parse_verify_hostname : Bytes → Result Bool
  unfolding one_of same new
  parse_verify_hostname val =
      if one_of (lower val) yes_texts
      then ok true
      else if one_of (lower val) no_texts
      then ok false
      else raised (new (builtin "ValueError") "tls_verify_hostname can only be one of yes/no")

  -- `if not host and spec: host, port = _parse_hostlist(spec, port)`
  unfoldable pub fill_host :
      Bytes → Option Hosts → Option Ports → Result (Option Hosts × Option Ports)
  unfolding has_host
  fill_host [] host port = ok (host, port)
  fill_host (x ∷ xs) host port = elim (has_host host) [
    | true ↦ ok (host, port)
    | false ↦
        parse_hostlist sys (x ∷ xs) port >>= λ r. ok (some (host_list r.0), some (port_list r.1))
  ]

  -- The key `port` of the query.
  unfoldable pub query_port : Option Bytes → Option Ports → Result (Option Ports)
  unfolding has_port
  query_port (some (x ∷ xs)) port = elim (has_port port) [
    | true ↦ ok port
    | false ↦ ints sys (split b',' (x ∷ xs)) >>= λ ps. ok (some (port_list ps))
  ]
  query_port _ port = ok port

  -- The key `tls_verify_hostname` of the query.
  unfoldable pub query_verify : Option Bytes → Option Bool → Result (Option Bool)
  query_verify (some val) none = parse_verify_hostname val >>= λ b. ok (some b)
  query_verify _ verify = ok verify

  -- The query of the DSN, key by key.
  unfoldable pub read_query : Query → Arguments → Result Arguments
  unfolding get remove_all
  read_query q a = do
    port ← query_port (get "port" q) a.port
    hosts ← fill_host (elim (get "host" q) [ none ↦ [] | some val ↦ val ]) a.host port
    verify ← query_verify (get "tls_verify_hostname" q) a.tls_verify_hostname
    ok (record a {
      host = hosts.0;
      port = hosts.1;
      database = or_else (or_else a.database (get "dbname" q)) (get "database" q);
      user = or_else a.user (get "user" q);
      password = or_else a.password (get "password" q);
      tls_ca_file = or_else a.tls_ca_file (get "tls_ca_file" q);
      tls_verify_hostname = verify;
      server_settings = settings_with (remove_all own_keys q) a.server_settings;
    })

  -- `if parsed.query:`
  unfoldable pub url_query : Bytes → Arguments → Result Arguments
  unfolding last_values
  url_query [] a = ok a
  url_query (x ∷ xs) a = parse_qs (x ∷ xs) >>= λ d. read_query (last_values d) a
