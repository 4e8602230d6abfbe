-- ===== src/Scram/Exchange.antt =====
-- The exchange as a whole: a client and a server that hold the same password agree.
use edgedb_python.Prelude.Int.{ℤ}
use edgedb_python.Prelude.{ℕ, zero, suc, ◌+◌, ◌≡◌, refl, ap, ◌∙◌, sym, true, [], ◌∷◌, ◌++◌, length}
use edgedb_python.Errors.Raise.{ok}
use edgedb_python.Scram.Bytes.{
  Bytes, IsBytes, xor_bytes, xor-eq, xor_bytes-length, xor_bytes-IsBytes, xor_undo,
}
use edgedb_python.Scram.Text.{split, after, begins, IsFree, split-append, split_free, same_refl}
use edgedb_python.Scram.Library.{Library, IsLawful}
use edgedb_python.Scram.Keys.{
  rounds, salt_loop, get_salted_password, get_client_key, get_server_key, build_auth_message,
  client_key_text, verify_client_proof,
}
use edgedb_python.Scram.Build.{
  client_final_bare, build_client_final_message, build_server_final_message,
}
use edgedb_python.Scram.Parse.{
  item, all_ascii, decode_ascii, proof_loop, parse_client_final_message, ClientFinal,
  parse_server_final_message,
}
use edgedb_python.Scram.RoundTrip.{parse_server_final-build}

-- A digest: 32 bytes.
abbrev pub IsDigest : Bytes → Type 0
IsDigest xs = IsBytes xs × (length xs ≡ 32)

module _ (l : Library) (lawful : IsLawful l) where
  hmac-IsDigest : (k m : Bytes) → IsDigest (l.hmac k m)
  hmac-IsDigest k m = (lawful.hmac-IsBytes k m, lawful.hmac-length k m)

  salt_loop_total :
      (n : ℕ) (password u h : Bytes)
      → IsDigest h
      → (r : Bytes) × (salt_loop l n password u h ≡ ok r) × IsDigest r
  unfolding salt_loop
  salt_loop_total zero password u h d = (h, refl, d)
  salt_loop_total (suc n) password u h d =
      let next = l.hmac password u in
      let (b, s) = hmac-IsDigest password u in
      let both : length h ≡ length next = d.1 ∙ sym s in
      rw (xor-eq h next d.0 b both) (
        salt_loop_total n password next (xor_bytes h next)
          (xor_bytes-IsBytes h next, xor_bytes-length h next ∙ d.1))

  -- The salted password exists for any password, salt and iteration count, and is a digest.
  pub salted_password_total :
      (password salt : Bytes) (iterations : ℤ)
      → (r : Bytes) × (get_salted_password l password salt iterations ≡ ok r) × IsDigest r
  unfolding get_salted_password
  salted_password_total password salt iterations =
      salt_loop_total (rounds iterations) password _ _ (hmac-IsDigest password _)

  final_parts :
      (server_nonce proof : Bytes)
      → IsFree b',' server_nonce
      → split b',' (client_final_bare l server_nonce ++ b',' ∷ b'p' ∷ b'=' ∷ l.b64encode proof)
        ≡ (b'c' ∷ b'=' ∷ b'b' ∷ b'i' ∷ b'w' ∷ b's' ∷ [])
          ∷ (b'r' ∷ b'=' ∷ server_nonce)
          ∷ (b'p' ∷ b'=' ∷ l.b64encode proof)
          ∷ []
  unfolding client_final_bare
  final_parts server_nonce proof f =
      split-append b',' (b'c' ∷ b'=' ∷ b'b' ∷ b'i' ∷ b'w' ∷ b's' ∷ []) _
        (refl, (refl, (refl, (refl, (refl, (refl, tt))))))
      ∙ ap (◌∷◌ (b'c' ∷ b'=' ∷ b'b' ∷ b'i' ∷ b'w' ∷ b's' ∷ [])) (
          split-append b',' (b'r' ∷ b'=' ∷ server_nonce) _ (refl, (refl, f))
          ∙ ap (◌∷◌ (b'r' ∷ b'=' ∷ server_nonce)) (
              split_free b',' (b'p' ∷ b'=' ∷ l.b64encode proof)
                (refl, (refl, (lawful.encode-IsPlain proof).no_comma))))

  -- A final message with the proof reads back as the proof, and its stated length is that of the
  -- suffix that follows the part without the proof.
  parse_client_final-build :
      (client_nonce server_nonce proof : Bytes)
      → IsFree b',' (client_nonce ++ server_nonce)
      → all_ascii (client_nonce ++ server_nonce) ≡ true
      → IsBytes proof
      → parse_client_final_message l
          (client_final_bare l (client_nonce ++ server_nonce)
            ++ b',' ∷ b'p' ∷ b'=' ∷ l.b64encode proof)
          client_nonce
          server_nonce
        ≡ ok (record {
          cb_data = b'b' ∷ b'i' ∷ b'w' ∷ b's' ∷ [];
          proof = proof;
          proof_length = length (b'p' ∷ b'=' ∷ l.b64encode proof) + 1;
        })
  unfolding parse_client_final_message item begins after decode_ascii proof_loop
  parse_client_final-build client_nonce server_nonce proof f a b = rw (
    final_parts (client_nonce ++ server_nonce) proof f,
    a,
    same_refl (client_nonce ++ server_nonce),
    lawful.decode-encode proof b,
  )

  -- A client that knows the password convinces the server, and the server convinces the client.
  -- For any password that can be prepared, salt, iteration count, printable nonces and first
  -- messages: the client's final message is built, the server reads the proof out of it and accepts
  -- it with the stored key of that password, and the signature that the client reads in the
  -- server's final message is the one that it expects.
  pub exchange :
      (password prepared salt client_nonce server_nonce bare server_first : Bytes) (iterations : ℤ)
      → l.saslprep password ≡ ok prepared
      → IsFree b',' (client_nonce ++ server_nonce)
      → all_ascii (client_nonce ++ server_nonce) ≡ true
      → (salted : Bytes) × (msg : Bytes) × (server_proof : Bytes) × (final : ClientFinal)
        × (get_salted_password l prepared salt iterations ≡ ok salted)
        × (build_client_final_message l password salt iterations bare server_first
              (client_nonce ++ server_nonce)
            ≡ ok (msg, server_proof))
        × (parse_client_final_message l msg client_nonce server_nonce ≡ ok final)
        × (verify_client_proof l bare server_first
              (client_final_bare l (client_nonce ++ server_nonce))
              (l.sha256 (get_client_key l salted))
              final.proof
            ≡ ok true)
        × (parse_server_final_message l (
              build_server_final_message l bare server_first
                (client_final_bare l (client_nonce ++ server_nonce))
                (get_server_key l salted))
            ≡ ok server_proof)
  unfolding build_client_final_message verify_client_proof get_client_key
  exchange password prepared salt client_nonce server_nonce bare server_first iterations p f a =
      let (salted, run, _) = salted_password_total prepared salt iterations in
      let auth =
        build_auth_message l bare server_first
          (client_final_bare l (client_nonce ++ server_nonce)) in
      let key = get_client_key l salted in
      let signature = l.hmac (l.sha256 key) auth in
      let (kb, kl) = hmac-IsDigest salted client_key_text in
      let (sb, sl) = hmac-IsDigest (l.sha256 key) auth in
      let (proof, made, _, pb, back) = xor_undo key signature kb sb (kl ∙ sym sl) in
      (
        salted,
        client_final_bare l (client_nonce ++ server_nonce)
            ++ b',' ∷ b'p' ∷ b'=' ∷ l.b64encode proof,
        l.hmac (get_server_key l salted) auth,
        _,
        run,
        rw (p, run, made),
        parse_client_final-build client_nonce server_nonce proof f a pb,
        rw (back, same_refl (l.sha256 key)),
        parse_server_final-build l lawful bare server_first _ (get_server_key l salted),
      )
