-- ===== src/Scram/Verifier.antt =====
-- The stored verifier: it reads back, and it accepts the password that it was built from.
use mathlib.Core.List.{append_assoc}
use edgedb_python.Prelude.Int.{ℤ}
use edgedb_python.Prelude.{
  ◌≡◌, ◌≢◌, refl, ap, ◌∙◌, sym, true, false, [], ◌∷◌, ◌++◌, some, arith, length,
}
use edgedb_python.Errors.Raise.{ok}
use edgedb_python.Scram.Bytes.{Bytes, IsBytes}
use edgedb_python.Scram.Text.{
  split, IsFree, split-append, split_free, after-append, before-append, same_refl, IsFree-append,
}
use edgedb_python.Scram.Library.{Library, IsLawful}
use edgedb_python.Scram.Keys.{server_key_text, get_salted_password, get_client_key, get_server_key}
use edgedb_python.Scram.Build.{build_verifier, mechanism_text}
use edgedb_python.Scram.Parse.{is_empty, parse_verifier, verify_password}
use edgedb_python.Scram.Exchange.{salted_password_total}

is_empty-false : (xs : Bytes) → xs ≢ [] → is_empty xs ≡ false
unfolding is_empty
is_empty-false [] h = absurd (h refl)
is_empty-false (x ∷ xs) h = refl

ne-nil_of_length : (xs : Bytes) → length xs ≡ 32 → xs ≢ []
ne-nil_of_length xs h e = absurd (omega (arith, ap length e))

-- `xs:ys` holds no `$` if neither part does.
pair-IsFree : (xs ys : Bytes) → IsFree b'$' xs → IsFree b'$' ys → IsFree b'$' (xs ++ b':' ∷ ys)
pair-IsFree xs ys f g = IsFree-append b'$' xs (b':' ∷ ys) f (refl, g)

mechanism-IsFree : IsFree b'$' mechanism_text
mechanism-IsFree = (
  refl,
  (
    refl,
    (refl, (refl, (refl, (refl, (refl, (refl, (refl, (refl, (refl, (refl, (refl, tt))))))))))),
  ),
)

module _ (l : Library) (lawful : IsLawful l) where
  -- The text of a verifier with these parts.
  abbrev pub verifier_text : ℤ → Bytes → Bytes → Bytes → Bytes
  verifier_text iterations salt stored_key server_key =
      mechanism_text
      ++ b'$'
        ∷ (l.decimal iterations
            ++ b':'
              ∷ (l.b64encode salt
                  ++ b'$' ∷ (l.b64encode stored_key ++ b':' ∷ l.b64encode server_key)))

  server_key-length : (salted : Bytes) → length (get_server_key l salted) ≡ 32
  unfolding get_server_key
  server_key-length salted = lawful.hmac-length salted server_key_text

  server_key-IsBytes : (salted : Bytes) → IsBytes (get_server_key l salted)
  unfolding get_server_key
  server_key-IsBytes salted = lawful.hmac-IsBytes salted server_key_text

  verifier_parts :
      (iterations : ℤ) (salt stored_key server_key : Bytes)
      → split b'$' (verifier_text iterations salt stored_key server_key)
        ≡ mechanism_text
          ∷ (l.decimal iterations ++ b':' ∷ l.b64encode salt)
          ∷ (l.b64encode stored_key ++ b':' ∷ l.b64encode server_key)
          ∷ []
  verifier_parts iterations salt stored_key server_key =
      split-append b'$' mechanism_text
        (l.decimal iterations
          ++ b':'
            ∷ (l.b64encode salt
                ++ b'$' ∷ (l.b64encode stored_key ++ b':' ∷ l.b64encode server_key)))
        mechanism-IsFree
      ∙ ap (λ rest. mechanism_text ∷ split b'$' rest)
          (sym (
            append_assoc (l.decimal iterations) (b':' ∷ l.b64encode salt)
              (b'$' ∷ (l.b64encode stored_key ++ b':' ∷ l.b64encode server_key))))
      ∙ ap (◌∷◌ mechanism_text) (
          split-append b'$' (l.decimal iterations ++ b':' ∷ l.b64encode salt) _ (
            pair-IsFree _ _ (lawful.decimal-IsPlain iterations).no_dollar
              (lawful.encode-IsPlain salt).no_dollar)
          ∙ ap (◌∷◌ (l.decimal iterations ++ b':' ∷ l.b64encode salt)) (
              split_free b'$' _ (
                pair-IsFree _ _ (lawful.encode-IsPlain stored_key).no_dollar
                  (lawful.encode-IsPlain server_key).no_dollar)))

  parse_verifier_text :
      (iterations : ℤ) (salt stored_key server_key : Bytes)
      → IsBytes salt
      → salt ≢ []
      → IsBytes stored_key
      → IsBytes server_key
      → server_key ≢ []
      → parse_verifier l (verifier_text iterations salt stored_key server_key)
        ≡ ok (record {
          mechanism = mechanism_text;
          iterations = iterations;
          salt = salt;
          stored_key = stored_key;
          server_key = server_key;
        })
  unfolding parse_verifier
  parse_verifier_text iterations salt stored_key server_key b n sb kb kn = rw (
    verifier_parts iterations salt stored_key server_key,
    before-append b':' (l.decimal iterations) (l.b64encode salt)
        (lawful.decimal-IsPlain iterations).no_colon,
    after-append b':' (l.decimal iterations) (l.b64encode salt)
        (lawful.decimal-IsPlain iterations).no_colon,
    before-append b':' (l.b64encode stored_key) (l.b64encode server_key)
        (lawful.encode-IsPlain stored_key).no_colon,
    after-append b':' (l.b64encode stored_key) (l.b64encode server_key)
        (lawful.encode-IsPlain stored_key).no_colon,
    same_refl mechanism_text,
    is_empty-false (l.b64encode salt) (lawful.encode-ne-nil salt n),
    is_empty-false (l.b64encode server_key) (lawful.encode-ne-nil server_key kn),
    lawful.read-decimal iterations,
    lawful.decode-encode salt b,
    lawful.decode-encode stored_key sb,
    lawful.decode-encode server_key kb,
  )

  -- A verifier that is built for a password reads back as the mechanism, the iteration count, the
  -- salt and the two keys of that password, and `verify_password` accepts the password with it. The
  -- password must be one that can be prepared, and the salt bytes, at least one.
  pub verifier_accepts :
      (random password prepared salt : Bytes) (iterations : ℤ)
      → l.saslprep password ≡ ok prepared
      → IsBytes salt
      → salt ≢ []
      → (text : Bytes) × (salted : Bytes) × (build_verifier l random password (some salt) iterations
          ≡ ok text)
        × (get_salted_password l prepared salt iterations ≡ ok salted)
        × (parse_verifier l text
            ≡ ok (record {
              mechanism = mechanism_text;
              iterations = iterations;
              salt = salt;
              stored_key = l.sha256 (get_client_key l salted);
              server_key = get_server_key l salted;
            }))
        × (verify_password l password text ≡ ok true)
  unfolding build_verifier verify_password
  verifier_accepts random password prepared salt iterations p b n =
      let (salted, run, _) = salted_password_total l lawful prepared salt iterations in
      let key = get_server_key l salted in
      let stored = l.sha256 (get_client_key l salted) in
      let read =
        parse_verifier_text iterations salt stored key b n
          (lawful.sha256-IsBytes (get_client_key l salted)) (server_key-IsBytes salted)
          (ne-nil_of_length key (server_key-length salted)) in
      (
        verifier_text iterations salt stored key,
        salted,
        rw (p, run),
        run,
        read,
        rw (p, read, run, same_refl key),
      )
