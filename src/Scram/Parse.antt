-- ===== src/Scram/Parse.antt =====
-- edgedb/scram/__init__.py: the messages and the verifier that are read.
use edgedb_python.Prelude.Int.{ℤ}
use edgedb_python.Prelude.{
  ℕ, ◌+◌, String, Bool, true, false, not, ◌&&◌, ◌||◌, ltb, List, [], ◌∷◌, ◌++◌, Option, none, some,
  if◌then◌else◌, length, get_elem?,
}
use edgedb_python.Errors.Class.{builtin}
use edgedb_python.Errors.Raise.{Exception, Result, ok, raised, new, require, ◌>>=◌, ◌>>◌}
use edgedb_python.Scram.Bytes.{Bytes}
use edgedb_python.Scram.Text.{split, before, after, begins, same}
use edgedb_python.Scram.Library.{Library}
use edgedb_python.Scram.Build.{mechanism_text}
use edgedb_python.Scram.Keys.{get_salted_password, get_server_key}

value_error : String → Exception
unfolding new
value_error = new (builtin "ValueError")

malformed : Exception
unfolding value_error
malformed = value_error "malformed SCRAM message"

-- `items[i]`
unfoldable pub item : List Bytes → ℕ → Result Bytes
unfolding new
item xs i = elim (get_elem? xs i) [
  | none ↦ raised (new (builtin "IndexError") "list index out of range")
  | some x ↦ ok x
]

unfoldable pub all_ascii : Bytes → Bool
all_ascii [] = true
all_ascii (x ∷ xs) = ltb x 128 && all_ascii xs

-- `xs.decode('ascii')`
unfoldable pub decode_ascii : Bytes → Result Bytes
unfolding all_ascii new
decode_ascii xs =
    if all_ascii xs
    then ok xs
    else raised (new (builtin "UnicodeDecodeError") "ordinal not in range(128)")

unfoldable pub is_empty : Bytes → Bool
is_empty [] = true
is_empty (x ∷ xs) = false

pub record ScramVerifier : Type 0 where
  pub mechanism : Bytes
  pub iterations : ℤ
  pub salt : Bytes
  pub stored_key : Bytes
  pub server_key : Bytes

-- The channel binding of a client's first message: `True`, `False` or a name.
pub data ChannelBinding : Type 0 where
  cb_true cb_false : ChannelBinding
  cb_name : Bytes → ChannelBinding

pub record ClientFirst : Type 0 where
  pub header_length : ℕ
  pub cb : ChannelBinding
  pub authzid : Option Bytes
  pub user : Bytes
  pub nonce : Bytes

pub record ClientFinal : Type 0 where
  pub cb_data : Bytes
  pub proof : Bytes
  pub proof_length : ℕ

pub record ServerFirst : Type 0 where
  pub nonce : Bytes
  pub salt : Bytes
  pub itercount : ℤ

unfoldable pub parse_channel_binding : Bytes → Result ChannelBinding
unfolding same begins after malformed is_empty
parse_channel_binding cb_attr =
    if same cb_attr (b'y' ∷ [])
    then ok cb_true
    else if same cb_attr (b'n' ∷ [])
    then ok cb_false
    else if begins b'p' cb_attr
    then (if is_empty (after b'=' cb_attr)
        then raised malformed
        else ok (cb_name (after b'=' cb_attr)))
    else raised malformed

unfoldable pub parse_authzid : Bytes → Result (Option Bytes)
unfolding begins after malformed is_empty
parse_authzid attr =
    if is_empty attr
    then ok none
    else if begins b'a' attr
    then ok (some (after b'=' attr))
    else raised malformed

module _ (l : Library) where
  open l use {b64decode, read_int, isprintable, saslprep}

  -- `parse_verifier` once the verifier is split at the dollar signs.
  unfoldable pub read_parts : List Bytes → Result ScramVerifier
  unfolding value_error is_empty
  read_parts (mechanism ∷ second ∷ third ∷ []) = do
    require (same mechanism mechanism_text) (value_error "invalid SCRAM verifier")
    require (not (is_empty (after b':' second) || is_empty (after b':' third)))
        (value_error "invalid SCRAM verifier")
    iterations ← elim (read_int (before b':' second)) [
      | none ↦ raised (value_error "invalid SCRAM verifier")
      | some n ↦ ok n
    ]
    salt ← b64decode (after b':' second)
    stored_key ← b64decode (before b':' third)
    server_key ← b64decode (after b':' third)
    ok (record {
      mechanism = mechanism;
      iterations = iterations;
      salt = salt;
      stored_key = stored_key;
      server_key = server_key;
    })
  read_parts _ = raised (value_error "invalid SCRAM verifier")

  unfoldable pub parse_verifier : Bytes → Result ScramVerifier
  unfolding read_parts
  parse_verifier verifier = read_parts (split b'$' verifier)

  unfoldable pub parse_client_first_message : Bytes → Result ClientFirst
  unfolding value_error malformed
  parse_client_first_message resp = do
    let attrs = split b',' resp
    cb_attr ← item attrs 0
    cb ← parse_channel_binding cb_attr
    authzid_attr ← item attrs 1
    authzid ← parse_authzid authzid_attr
    user_attr ← item attrs 2
    require (not (begins b'm' user_attr)) (value_error "unsupported SCRAM extensions in message")
    require (begins b'n' user_attr) malformed
    nonce_attr ← item attrs 3
    require (begins b'r' nonce_attr) malformed
    nonce ← decode_ascii (after b'=' nonce_attr)
    require (isprintable nonce) (value_error "invalid characters in client nonce")
    ok (record {
      header_length = length cb_attr + 2;
      cb = cb;
      authzid = authzid;
      user = after b'=' user_attr;
      nonce = nonce;
    })

  -- The loop of `parse_client_final_message`: the last proof and the length of its attribute.
  unfoldable pub proof_loop : Option (Bytes × ℕ) → List Bytes → Result (Option (Bytes × ℕ))
  unfolding malformed
  proof_loop found [] = ok found
  proof_loop found (attr ∷ attrs) = elim (begins b'p' attr) [
    | true ↦ b64decode (after b'=' attr) >>= λ proof. proof_loop (some (proof, length attr)) attrs
    | false ↦ elim found [ some f ↦ raised malformed | none ↦ proof_loop none attrs ]
  ]

  unfoldable pub parse_client_final_message : Bytes → Bytes → Bytes → Result ClientFinal
  unfolding value_error malformed
  parse_client_final_message msg client_nonce server_nonce = do
    let attrs = split b',' msg
    cb_attr ← item attrs 0
    require (begins b'c' cb_attr) malformed
    nonce_attr ← item attrs 1
    require (begins b'r' nonce_attr) malformed
    nonce ← decode_ascii (after b'=' nonce_attr)
    require (same nonce (client_nonce ++ server_nonce))
        (value_error "invalid SCRAM client-final message: nonce does not match")
    found ← proof_loop none (elim attrs [ a ∷ b ∷ rest ↦ rest | _ ↦ [] ])
    elim found [
      | none ↦ raised malformed
      | some (proof, size) ↦
          ok (record { cb_data = after b'=' cb_attr; proof = proof; proof_length = size + 1 })
    ]

  unfoldable pub parse_server_first_message : Bytes → Result ServerFirst
  unfolding malformed
  parse_server_first_message msg = do
    let attrs = split b',' msg
    nonce_attr ← item attrs 0
    require (begins b'r' nonce_attr) malformed
    nonce ← decode_ascii (after b'=' nonce_attr)
    require (isprintable nonce) malformed
    salt_attr ← item attrs 1
    require (begins b's' salt_attr) malformed
    salt ← b64decode (after b'=' salt_attr)
    iter_attr ← item attrs 2
    require (begins b'i' iter_attr) malformed
    itercount ← elim (read_int (after b'=' iter_attr)) [ none ↦ raised malformed | some n ↦ ok n ]
    ok (record { nonce = nonce; salt = salt; itercount = itercount })

  unfoldable pub parse_server_final_message : Bytes → Result Bytes
  unfolding malformed
  parse_server_final_message msg = do
    let attrs = split b',' msg
    nonce_attr ← item attrs 0
    require (begins b'v' nonce_attr) malformed
    b64decode (after b'=' nonce_attr)

  unfoldable pub verify_password : Bytes → Bytes → Result Bool
  verify_password password verifier = do
    prepared ← saslprep password
    v ← parse_verifier verifier
    salted_password ← get_salted_password l prepared v.salt v.iterations
    ok (same v.server_key (get_server_key l salted_password))
