-- ===== src/Scram/RoundTrip.antt =====
-- Each message and the verifier read back as what they were built from.
use edgedb_python.Prelude.Int.{ℤ}
use edgedb_python.Prelude.{◌≡◌, refl, ap, ◌∙◌, true, [], ◌∷◌, ◌++◌, none, drop, nat_eq}
use edgedb_python.Errors.Raise.{ok}
use edgedb_python.Scram.Bytes.{Bytes, IsBytes}
use edgedb_python.Scram.Text.{split, after, begins, same, IsFree, split-append, split_free}
use edgedb_python.Scram.Library.{Library, IsLawful}
use edgedb_python.Scram.Keys.{build_auth_message}
use edgedb_python.Scram.Build.{
  build_server_first_message, build_client_first_message, build_server_final_message,
}
use edgedb_python.Scram.Parse.{
  item, all_ascii, decode_ascii, parse_server_first_message, parse_server_final_message,
  parse_client_first_message, cb_false, parse_channel_binding, parse_authzid,
}

-- A nonce that can stand in a message.
pub record IsNonce (l : Library) (n : Bytes) : Type 0 where
  pub no_comma : IsFree b',' n
  pub ascii : all_ascii n ≡ true
  pub printable : l.isprintable n ≡ true

module _ (l : Library) (lawful : IsLawful l) where
  server_first_parts :
      (server_nonce client_nonce salt : Bytes) (iterations : ℤ)
      → IsFree b',' (client_nonce ++ server_nonce)
      → split b',' (build_server_first_message l server_nonce client_nonce salt iterations)
        ≡ (b'r' ∷ b'=' ∷ (client_nonce ++ server_nonce))
          ∷ (b's' ∷ b'=' ∷ l.b64encode salt)
          ∷ (b'i' ∷ b'=' ∷ l.decimal iterations)
          ∷ []
  unfolding build_server_first_message
  server_first_parts server_nonce client_nonce salt iterations f =
      split-append b',' (b'r' ∷ b'=' ∷ (client_nonce ++ server_nonce)) _ (refl, (refl, f))
      ∙ ap (◌∷◌ (b'r' ∷ b'=' ∷ (client_nonce ++ server_nonce))) (
          split-append b',' (b's' ∷ b'=' ∷ l.b64encode salt) _
            (refl, (refl, (lawful.encode-IsPlain salt).no_comma))
          ∙ ap (◌∷◌ (b's' ∷ b'=' ∷ l.b64encode salt)) (
              split_free b',' (b'i' ∷ b'=' ∷ l.decimal iterations)
                (refl, (refl, (lawful.decimal-IsPlain iterations).no_comma))))

  -- The server's first message reads back as the joined nonce, the salt and the iteration count,
  -- if the joined nonce is printable ASCII with no comma.
  pub parse_server_first-build :
      (server_nonce client_nonce salt : Bytes) (iterations : ℤ)
      → IsNonce l (client_nonce ++ server_nonce)
      → IsBytes salt
      → parse_server_first_message l
          (build_server_first_message l server_nonce client_nonce salt iterations)
        ≡ ok (record { nonce = client_nonce ++ server_nonce; salt = salt; itercount = iterations })
  unfolding parse_server_first_message item begins after decode_ascii
  parse_server_first-build server_nonce client_nonce salt iterations n b = rw (
    server_first_parts server_nonce client_nonce salt iterations n.no_comma,
    n.ascii,
    n.printable,
    lawful.decode-encode salt b,
    lawful.read-decimal iterations,
  )

  -- The server's final message reads back as the signature that was put into it.
  pub parse_server_final-build :
      (client_first_bare server_first client_final server_key : Bytes)
      → parse_server_final_message l
          (build_server_final_message l client_first_bare server_first client_final server_key)
        ≡ ok (l.hmac server_key (build_auth_message l client_first_bare server_first client_final))
  unfolding parse_server_final_message build_server_final_message item begins after
  parse_server_final-build bare first final key =
      let signature = l.hmac key (build_auth_message l bare first final) in
      rw (
        split_free b',' (b'v' ∷ b'=' ∷ l.b64encode signature)
            (refl, (refl, (lawful.encode-IsPlain signature).no_comma)),
        lawful.decode-encode signature (lawful.hmac-IsBytes key _),
      )

  client_first_parts :
      (user client_nonce : Bytes)
      → IsFree b',' user
      → IsFree b',' client_nonce
      → split b',' (b'n' ∷ b',' ∷ b',' ∷ b'n' ∷ b'=' ∷ (user ++ b',' ∷ b'r' ∷ b'=' ∷ client_nonce))
        ≡ (b'n' ∷ []) ∷ [] ∷ (b'n' ∷ b'=' ∷ user) ∷ (b'r' ∷ b'=' ∷ client_nonce) ∷ []
  client_first_parts user client_nonce u n =
      split-append b',' (b'n' ∷ []) _ (refl, tt)
      ∙ ap (◌∷◌ (b'n' ∷ [])) (
          split-append b',' [] _ tt
          ∙ ap (◌∷◌ []) (
              split-append b',' (b'n' ∷ b'=' ∷ user) _ (refl, (refl, u))
              ∙ ap (◌∷◌ (b'n' ∷ b'=' ∷ user))
                  (split_free b',' (b'r' ∷ b'=' ∷ client_nonce) (refl, (refl, n)))))

  -- The client's first message reads back as no channel binding, no authorisation identity, the
  -- prepared user name and the nonce; and the header length that is read is where the part without
  -- the header begins. The prepared name must hold no comma, and the nonce be printable ASCII with
  -- no comma.
  pub parse_client_first-build :
      (client_nonce username prepared : Bytes)
      → l.saslprep username ≡ ok prepared
      → IsFree b',' prepared
      → IsNonce l client_nonce
      → (msg bare : Bytes) × (build_client_first_message l client_nonce username ≡ ok (msg, bare))
        × (parse_client_first_message l msg
            ≡ ok (record {
              header_length = 3;
              cb = cb_false;
              authzid = none;
              user = prepared;
              nonce = client_nonce;
            }))
        × (drop 3 msg ≡ bare)
  unfolding build_client_first_message parse_client_first_message parse_channel_binding
      parse_authzid item begins after decode_ascii same
  parse_client_first-build client_nonce username prepared p u n =
      let bare : Bytes = b'n' ∷ b'=' ∷ (prepared ++ b',' ∷ b'r' ∷ b'=' ∷ client_nonce) in
      (
        b'n' ∷ b',' ∷ b',' ∷ bare,
        bare,
        rw p,
        rw (client_first_parts prepared client_nonce u n.no_comma, n.ascii, n.printable),
        refl,
      )
