-- ===== src/Params/Credentials.antt =====
-- edgedb/credentials.py: `validate_credentials` on the object that `json.load` gives.
use Prim.Native.String.{◌++◌}
use edgedb_python.Prelude.Int.{ℤ, pos}
use edgedb_python.Prelude.Dict.{get}
use edgedb_python.Prelude.{
  ℕ, ◌≤◌, ◌≡◌, ◌↔◌, ◌⊎◌, String, Bool, true, ◌||◌, ltb, string_eq, List, Option, none, some,
  if◌then◌else◌, arith,
}
use edgedb_python.Errors.Class.{builtin}
use edgedb_python.Errors.Raise.{Exception, Result, ok, raised, new, ◌>>=◌}
use edgedb_python.Scram.Bytes.{Bytes}

-- A value of a JSON object; `other` is a fraction, an array or an object.
pub data Json : Type 0 where
  null other : Json
  text : Bytes → Json
  number : ℤ → Json
  boolean : Bool → Json

pub record Credentials : Type 0 where
  pub port : ℕ
  pub user : Bytes
  pub host : Option Bytes
  pub password : Option Bytes
  pub database : Option Bytes
  pub tls_cert_data : Option Bytes
  pub tls_verify_hostname : Option Bool

value_error : String → Exception
unfolding new
value_error message = new (builtin "ValueError") message

invalid_port : Result ℕ
unfolding value_error
invalid_port = raised (value_error "invalid `port` value")

-- `data.get(key)`: a key without a value reads as None.
unfoldable pub field : String → List (String × Json) → Json
unfolding get
field key d = elim (get key d) [ none ↦ null | some v ↦ v ]

-- The `port` key. Python's bool is an int.
unfoldable pub port_field : Json → Result ℕ
unfolding invalid_port
port_field null = ok 5656
port_field (number (pos n)) = if ltb n 1 || ltb 65535 n then invalid_port else ok n
port_field (boolean true) = ok 1
port_field _ = invalid_port

-- The `user` key.
unfoldable pub user_field : Json → Result Bytes
unfolding value_error
user_field (text t) = ok t
user_field null = raised (value_error "`user` key is required")
user_field _ = raised (value_error "`user` must be a string")

-- A key whose value is a string, if it is there.
unfoldable pub text_field : String → Json → Result (Option Bytes)
unfolding value_error
text_field key null = ok none
text_field key (text t) = ok (some t)
text_field key _ = raised (value_error ("`" ++ (key ++ "` must be a string")))

-- The `tls_verify_hostname` key.
unfoldable pub verify_field : Json → Result (Option Bool)
unfolding value_error
verify_field null = ok none
verify_field (boolean b) = ok (some b)
verify_field _ = raised (value_error "`tls_verify_hostname` must be a bool")

-- `validate_credentials`
unfoldable pub validate_credentials : List (String × Json) → Result Credentials
validate_credentials d = do
  port ← port_field (field "port" d)
  user ← user_field (field "user" d)
  host ← text_field "host" (field "host" d)
  database ← text_field "database" (field "database" d)
  password ← text_field "password" (field "password" d)
  cert_data ← text_field "tls_cert_data" (field "tls_cert_data" d)
  verify ← verify_field (field "tls_verify_hostname" d)
  ok (record {
    port = port;
    user = user;
    host = host;
    password = password;
    database = database;
    tls_cert_data = cert_data;
    tls_verify_hostname = verify;
  })

-- The JSON value stands for the port.
abbrev pub IsPort : Json → ℕ → Type 0
IsPort v n =
    ((v ≡ null) × (n ≡ 5656))
    ⊎ (((v ≡ number (pos n)) × (1 ≤ n) × (n ≤ 65535)) ⊎ ((v ≡ boolean true) × (n ≡ 1)))

-- The JSON value stands for an optional string.
abbrev pub IsText : Json → Option Bytes → Type 0
IsText v none = v ≡ null
IsText v (some t) = v ≡ text t

abbrev pub IsFlag : Json → Option Bool → Type 0
IsFlag v none = v ≡ null
IsFlag v (some b) = v ≡ boolean b

port_field-IsPort : (v : Json) (n : ℕ) → (port_field v ≡ ok n) ↔ IsPort v n
unfolding port_field
port_field-IsPort v n = ground arith

user_field-eq : (v : Json) (t : Bytes) → (user_field v ≡ ok t) ↔ (v ≡ text t)
unfolding user_field
user_field-eq v t = ground arith

text_field-IsText :
    (key : String) (v : Json) (o : Option Bytes) → (text_field key v ≡ ok o) ↔ IsText v o
unfolding text_field
text_field-IsText key v o = ground arith

verify_field-IsFlag : (v : Json) (o : Option Bool) → (verify_field v ≡ ok o) ↔ IsFlag v o
unfolding verify_field
verify_field-IsFlag v o = ground arith

-- What the object must hold for these credentials.
pub record Describes (d : List (String × Json)) (c : Credentials) : Type 0 where
  pub ports : IsPort (field "port" d) c.port
  pub users : field "user" d ≡ text c.user
  pub hosts : IsText (field "host" d) c.host
  pub databases : IsText (field "database" d) c.database
  pub passwords : IsText (field "password" d) c.password
  pub certs : IsText (field "tls_cert_data" d) c.tls_cert_data
  pub verifies : IsFlag (field "tls_verify_hostname" d) c.tls_verify_hostname

-- What the parts are if they make credentials.
made_of :
    (p : Result ℕ) (u : Result Bytes) (h d w t : Result (Option Bytes)) (v : Result (Option Bool))
    (c : Credentials)
    → (p >>= λ port. u >>= λ user. h >>= λ host. d >>= λ database. w >>= λ password. t >>= λ cert.
        v >>= λ verify. ok (record {
          port = port;
          user = user;
          host = host;
          password = password;
          database = database;
          tls_cert_data = cert;
          tls_verify_hostname = verify;
        }))
      ≡ ok c
    → (p ≡ ok c.port)
      × (u ≡ ok c.user)
      × (h ≡ ok c.host)
      × (d ≡ ok c.database)
      × (w ≡ ok c.password)
      × (t ≡ ok c.tls_cert_data)
      × (v ≡ ok c.tls_verify_hostname)
made_of p u h d w t v c e = ground arith

accepted :
    (d : List (String × Json)) (c : Credentials) → validate_credentials d ≡ ok c → Describes d c
unfolding validate_credentials
accepted d c h =
    let (p, u, ho, da, pa, ce, ve) =
      made_of (port_field (field "port" d)) (user_field (field "user" d))
        (text_field "host" (field "host" d)) (text_field "database" (field "database" d))
        (text_field "password" (field "password" d))
        (text_field "tls_cert_data" (field "tls_cert_data" d))
        (verify_field (field "tls_verify_hostname" d)) c h in
    record {
      ports = (port_field-IsPort _ _).0 p;
      users = (user_field-eq _ _).0 u;
      hosts = (text_field-IsText "host" _ _).0 ho;
      databases = (text_field-IsText "database" _ _).0 da;
      passwords = (text_field-IsText "password" _ _).0 pa;
      certs = (text_field-IsText "tls_cert_data" _ _).0 ce;
      verifies = (verify_field-IsFlag _ _).0 ve;
    }

described :
    (d : List (String × Json)) (c : Credentials) → Describes d c → validate_credentials d ≡ ok c
unfolding validate_credentials
described d c h = rw (
  (port_field-IsPort _ _).1 h.ports,
  (user_field-eq _ _).1 h.users,
  (text_field-IsText "host" _ _).1 h.hosts,
  (text_field-IsText "database" _ _).1 h.databases,
  (text_field-IsText "password" _ _).1 h.passwords,
  (text_field-IsText "tls_cert_data" _ _).1 h.certs,
  (verify_field-IsFlag _ _).1 h.verifies,
)

-- `validate_credentials` accepts an object with the result `c` exactly if the object describes `c`:
-- the user is a string; the port is a number from 1 to 65535, or missing for 5656, or true for 1;
-- each other key is missing, null or of its type, and `c` holds what the keys say.
pub validate_credentials-Describes :
    (d : List (String × Json)) (c : Credentials) → (validate_credentials d ≡ ok c) ↔ Describes d c
validate_credentials-Describes d c = (accepted d c, described d c)
