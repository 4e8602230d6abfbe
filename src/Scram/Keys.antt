-- ===== src/Scram/Keys.antt =====
-- edgedb/scram/__init__.py: salted passwords, keys and proofs.
use edgedb_python.Prelude.Int.{ℤ, pos, negsuc}
use edgedb_python.Prelude.{ℕ, zero, suc, ◌-◌, Bool, [], ◌∷◌, ◌++◌}
use edgedb_python.Errors.Raise.{Result, ok, ◌>>=◌}
use edgedb_python.Scram.Bytes.{Bytes, xor}
use edgedb_python.Scram.Text.{same}
use edgedb_python.Scram.Library.{Library}

abbrev pub client_key_text : Bytes
client_key_text = b'C' ∷ b'l' ∷ b'i' ∷ b'e' ∷ b'n' ∷ b't' ∷ b' ' ∷ b'K' ∷ b'e' ∷ b'y' ∷ []

abbrev pub server_key_text : Bytes
server_key_text = b'S' ∷ b'e' ∷ b'r' ∷ b'v' ∷ b'e' ∷ b'r' ∷ b' ' ∷ b'K' ∷ b'e' ∷ b'y' ∷ []

-- The length of `range(iterations - 1)`.
unfoldable pub rounds : ℤ → ℕ
rounds (pos n) = n - 1
rounds (negsuc n) = 0

module _ (l : Library) where
  open l use {hmac, sha256}

  -- The loop of `get_salted_password`.
  unfoldable pub salt_loop : ℕ → Bytes → Bytes → Bytes → Result Bytes
  salt_loop zero password u h = ok h
  salt_loop (suc n) password u h =
      xor h (hmac password u) >>= λ h'. salt_loop n password (hmac password u) h'

  unfoldable pub get_salted_password : Bytes → Bytes → ℤ → Result Bytes
  unfolding salt_loop rounds
  get_salted_password password salt iterations =
      let u : Bytes = hmac password (salt ++ (0 ∷ 0 ∷ 0 ∷ 1 ∷ [])) in
      salt_loop (rounds iterations) password u u

  unfoldable pub get_client_key : Bytes → Bytes
  get_client_key salted_password = hmac salted_password client_key_text

  unfoldable pub get_server_key : Bytes → Bytes
  get_server_key salted_password = hmac salted_password server_key_text

  unfoldable pub build_auth_message : Bytes → Bytes → Bytes → Bytes
  build_auth_message client_first_bare server_first client_final =
      client_first_bare ++ b',' ∷ (server_first ++ b',' ∷ client_final)

  unfoldable pub verify_client_proof : Bytes → Bytes → Bytes → Bytes → Bytes → Result Bool
  unfolding build_auth_message
  verify_client_proof client_first server_first client_final stored_key client_proof = do
    let auth_message = build_auth_message client_first server_first client_final
    client_key ← xor client_proof (hmac stored_key auth_message)
    ok (same (sha256 client_key) stored_key)
