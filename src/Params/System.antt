-- ===== src/Params/System.antt =====
-- What edgedb/con_utils.py takes and asks for: its arguments, and the environment, files and
-- functions of Python's standard library as the parameter `System`. Text is its UTF-8 bytes; the
-- names of environment variables and of keys are strings.
use edgedb_python.Prelude.Int.{ℤ, pos}
use edgedb_python.Prelude.{
  ℕ, String, Bool, true, false, List, [], ◌∷◌, Option, some, ◌==◌, nat_eq, ◌||◌, ◌&&◌,
}
use edgedb_python.Errors.Raise.{Result}
use edgedb_python.Scram.Bytes.{Bytes}
use edgedb_python.Params.Credentials.{Json}

-- `host`: one name, or a list of names.
pub data Hosts : Type 0 where
  one_host : Bytes → Hosts
  host_list : List Bytes → Hosts

-- `port`: one number, or a list of numbers.
pub data Ports : Type 0 where
  one_port : ℤ → Ports
  port_list : List ℤ → Ports

pub record Arguments : Type 0 where
  pub dsn : Option Bytes
  pub host : Option Hosts
  pub port : Option Ports
  pub user : Option Bytes
  pub password : Option Bytes
  pub database : Option Bytes
  pub admin : Option Bool
  pub tls_ca_file : Option Bytes
  pub tls_verify_hostname : Option Bool
  pub server_settings : Option (List (String × Bytes))

-- What `urlparse` gives.
pub record Url : Type 0 where
  pub scheme : Bytes
  pub netloc : Bytes
  pub path : Bytes
  pub username : Option Bytes
  pub password : Option Bytes
  pub query : Bytes

pub record System : Type 0 where
  -- `os.getenv`
  pub getenv : String → Option Bytes
  -- `platform.IS_WINDOWS`
  pub is_windows : Bool
  -- `edgedb.toml` exists in the working directory.
  pub toml_exists : Bool
  -- The stripped text of `instance-name` in the directory `_stash_path(os.getcwd())`, where that
  -- directory exists.
  pub instance_name : Option (Result Bytes)
  -- `json.load` of the file at `get_credentials_path(name)`
  pub load_credentials : Bytes → Result (List (String × Json))
  -- `str.isidentifier`
  pub isidentifier : Bytes → Bool
  pub urlparse : Bytes → Result Url
  -- `parse_qs`: for each key its first value and the others.
  pub parse_qs : Bytes → Result (List (String × (Bytes × List Bytes)))
  -- `int(text)`
  pub int : Bytes → Result ℤ
  -- `str` of an integer
  pub decimal : ℤ → Bytes
  -- `str.lower`
  pub lower : Bytes → Bytes
  -- `os.path.join`
  pub join : Bytes → Bytes → Bytes

-- Python's truth of a text, of `host`, of `port` and of a flag.
unfoldable pub is_set : Option Bytes → Bool
is_set (some (x ∷ xs)) = true
is_set _ = false

unfoldable pub has_host : Option Hosts → Bool
has_host (some (one_host (x ∷ xs))) = true
has_host (some (host_list (h ∷ hs))) = true
has_host _ = false

unfoldable pub has_port : Option Ports → Bool
has_port (some (one_port (pos ℕ.zero))) = false
has_port (some (one_port n)) = true
has_port (some (port_list (n ∷ ns))) = true
has_port _ = false

unfoldable pub is_on : Option Bool → Bool
is_on (some true) = true
is_on _ = false

-- `text.startswith(prefix)`
unfoldable pub starts_with : Bytes → Bytes → Bool
starts_with [] text = true
starts_with (p ∷ ps) (x ∷ xs) = x == p && starts_with ps xs
starts_with _ _ = false

-- `part in text`
unfoldable pub contains : Bytes → Bytes → Bool
unfolding starts_with
contains part [] = starts_with part []
contains part (x ∷ xs) = starts_with part (x ∷ xs) || contains part xs
