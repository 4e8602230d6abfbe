-- ===== src/Scram/Build.antt =====
-- edgedb/scram/__init__.py: the messages and the verifier that are built.
use edgedb_python.Prelude.Int.{ℤ}
use edgedb_python.Prelude.{[], ◌∷◌, ◌++◌, Option, none, some}
use edgedb_python.Errors.Raise.{Result, ok, ◌>>=◌}
use edgedb_python.Scram.Bytes.{Bytes, xor}
use edgedb_python.Scram.Library.{Library}
use edgedb_python.Scram.Keys.{
  get_salted_password, get_client_key, get_server_key, build_auth_message,
}

abbrev pub mechanism_text : Bytes
mechanism_text =
    b'S' ∷ b'C' ∷ b'R' ∷ b'A' ∷ b'M' ∷ b'-' ∷ b'S' ∷ b'H' ∷ b'A' ∷ b'-' ∷ b'2' ∷ b'5' ∷ b'6' ∷ []

module _ (l : Library) where
  open l use {hmac, sha256, b64encode, decimal, saslprep}

  -- `build_verifier`; `random` is what `generate_salt()` gives.
  unfoldable pub build_verifier : Bytes → Bytes → Option Bytes → ℤ → Result Bytes
  build_verifier random password salt iterations = do
    prepared ← saslprep password
    let chosen : Bytes = elim salt [ none ↦ random | some s ↦ s ]
    salted_password ← get_salted_password l prepared chosen iterations
    let stored_key : Bytes = sha256 (get_client_key l salted_password)
    let server_key : Bytes = get_server_key l salted_password
    ok (
        mechanism_text
        ++ b'$'
          ∷ (decimal iterations
              ++ b':'
                ∷ (b64encode chosen
                    ++ b'$' ∷ (b64encode stored_key ++ b':' ∷ b64encode server_key))))

  -- `build_client_first_message`: the message, and its part without the header.
  unfoldable pub build_client_first_message : Bytes → Bytes → Result (Bytes × Bytes)
  build_client_first_message client_nonce username = do
    prepared ← saslprep username
    let bare : Bytes = b'n' ∷ b'=' ∷ (prepared ++ b',' ∷ b'r' ∷ b'=' ∷ client_nonce)
    ok (b'n' ∷ b',' ∷ b',' ∷ bare, bare)

  unfoldable pub build_server_first_message : Bytes → Bytes → Bytes → ℤ → Bytes
  build_server_first_message server_nonce client_nonce salt iterations =
      b'r'
      ∷ b'='
      ∷ ((client_nonce ++ server_nonce)
          ++ b',' ∷ b's' ∷ b'=' ∷ (b64encode salt ++ b',' ∷ b'i' ∷ b'=' ∷ decimal iterations))

  -- `client_final` of `build_client_final_message`: the message without the proof.
  unfoldable pub client_final_bare : Bytes → Bytes
  client_final_bare server_nonce =
      b'c' ∷ b'=' ∷ b'b' ∷ b'i' ∷ b'w' ∷ b's' ∷ b',' ∷ b'r' ∷ b'=' ∷ server_nonce

  -- `build_client_final_message`: the message and the proof that the server has to give.
  unfoldable pub build_client_final_message :
      Bytes → Bytes → ℤ → Bytes → Bytes → Bytes → Result (Bytes × Bytes)
  build_client_final_message password salt iterations client_first_bare server_first server_nonce =
      do
        let client_final : Bytes = client_final_bare server_nonce
        let auth_message : Bytes = build_auth_message l client_first_bare server_first client_final
        prepared ← saslprep password
        salted_password ← get_salted_password l prepared salt iterations
        let client_key : Bytes = get_client_key l salted_password
        let stored_key : Bytes = sha256 client_key
        client_proof ← xor client_key (hmac stored_key auth_message)
        let server_proof : Bytes = hmac (get_server_key l salted_password) auth_message
        ok (client_final ++ b',' ∷ b'p' ∷ b'=' ∷ b64encode client_proof, server_proof)

  unfoldable pub build_server_final_message : Bytes → Bytes → Bytes → Bytes → Bytes
  build_server_final_message client_first_bare server_first client_final server_key =
      b'v'
      ∷ b'='
      ∷ b64encode
          (hmac server_key (build_auth_message l client_first_bare server_first client_final))
