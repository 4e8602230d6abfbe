-- ===== src/Tests/Scram.antt =====
-- SCRAM with the small library.
use edgedb_python.Prelude.Int.{pos}
use edgedb_python.Prelude.{
  ℕ, ◌+◌, ◌≡◌, refl, Bool, true, false, not, List, [], ◌∷◌, ◌++◌, Option, none, some, arith, All,
  length, drop, ◌&&◌,
}
use edgedb_python.Errors.Raise.{ok}
use edgedb_python.Scram.Bytes.{Bytes}
use edgedb_python.Scram.Keys.{
  get_salted_password, get_client_key, get_server_key, build_auth_message, verify_client_proof,
}
use edgedb_python.Scram.Build.{
  build_verifier, build_client_first_message, build_server_first_message, client_final_bare,
  build_client_final_message, build_server_final_message, mechanism_text,
}
use edgedb_python.Scram.Parse.{
  all_ascii, ClientFinal, parse_verifier, parse_client_first_message, parse_client_final_message,
  parse_server_first_message, parse_server_final_message, verify_password, cb_false,
}
use edgedb_python.Scram.RoundTrip.{
  IsNonce, parse_server_first-build, parse_server_final-build, parse_client_first-build,
}
use edgedb_python.Scram.Exchange.{exchange, salted_password_total, IsDigest}
use edgedb_python.Scram.Verifier.{verifier_accepts}
use edgedb_python.Scram.Saslprep.{
  Tables, saslprep, saslprep_sound, IsPrepared, check_normalized, check_all, map_step,
  is_prohibited,
}
use edgedb_python.Tests.Library.{toy, toy-IsLawful}

abbrev password : Bytes
password = b'p' ∷ b'e' ∷ b'n' ∷ []

abbrev salt : Bytes
salt = 1 ∷ 2 ∷ []

abbrev client_nonce : Bytes
client_nonce = b'x' ∷ b'y' ∷ []

abbrev server_nonce : Bytes
server_nonce = b'z' ∷ []

shared-IsNonce : IsNonce toy (client_nonce ++ server_nonce)
unfolding all_ascii
shared-IsNonce = record { no_comma = (refl, (refl, (refl, tt))); ascii = refl; printable = refl }

parse_server_first-build_example :
    parse_server_first_message toy
      (build_server_first_message toy server_nonce client_nonce salt (pos 4))
    ≡ ok (record { nonce = client_nonce ++ server_nonce; salt = salt; itercount = pos 4 })
parse_server_first-build_example =
    parse_server_first-build toy toy-IsLawful server_nonce client_nonce salt (pos 4) shared-IsNonce
      (omega arith)

parse_server_final-build_example :
    parse_server_final_message toy (build_server_final_message toy password salt client_nonce salt)
    ≡ ok (toy.hmac salt (build_auth_message toy password salt client_nonce))
parse_server_final-build_example =
    parse_server_final-build toy toy-IsLawful password salt client_nonce salt

parse_client_first-build_example :
    (msg : Bytes) × (bare : Bytes) × (build_client_first_message toy
        (client_nonce ++ server_nonce)
        password
      ≡ ok (msg, bare))
    × (parse_client_first_message toy msg
        ≡ ok (record {
          header_length = 3;
          cb = cb_false;
          authzid = none;
          user = password;
          nonce = client_nonce ++ server_nonce;
        }))
    × (drop 3 msg ≡ bare)
parse_client_first-build_example =
    parse_client_first-build toy toy-IsLawful (client_nonce ++ server_nonce) password password refl
      (refl, (refl, (refl, tt))) shared-IsNonce

salted_password_total_example :
    (r : Bytes) × (get_salted_password toy password salt (pos 4) ≡ ok r) × IsDigest r
salted_password_total_example = salted_password_total toy toy-IsLawful password salt (pos 4)

exchange_example :
    (salted : Bytes) × (msg : Bytes) × (server_proof : Bytes) × (final : ClientFinal)
    × (get_salted_password toy password salt (pos 4) ≡ ok salted)
    × (build_client_final_message toy password salt
          (pos 4)
          salt
          password
          (client_nonce ++ server_nonce)
        ≡ ok (msg, server_proof))
    × (parse_client_final_message toy msg client_nonce server_nonce ≡ ok final)
    × (verify_client_proof toy salt password
          (client_final_bare toy (client_nonce ++ server_nonce))
          (toy.sha256 (get_client_key toy salted))
          final.proof
        ≡ ok true)
    × (parse_server_final_message toy (
          build_server_final_message toy salt password
            (client_final_bare toy (client_nonce ++ server_nonce))
            (get_server_key toy salted))
        ≡ ok server_proof)
exchange_example =
    exchange toy toy-IsLawful password password salt client_nonce server_nonce salt password (pos 4)
      refl shared-IsNonce.no_comma shared-IsNonce.ascii

verifier_accepts_example :
    (text : Bytes) × (salted : Bytes) × (build_verifier toy [] password (some salt) (pos 4)
      ≡ ok text)
    × (get_salted_password toy password salt (pos 4) ≡ ok salted)
    × (parse_verifier toy text
        ≡ ok (record {
          mechanism = mechanism_text;
          iterations = pos 4;
          salt = salt;
          stored_key = toy.sha256 (get_client_key toy salted);
          server_key = get_server_key toy salted;
        }))
    × (verify_password toy password text ≡ ok true)
verifier_accepts_example =
    verifier_accepts toy toy-IsLawful [] password password salt (pos 4) refl (omega arith)
      (ground arith)

-- Tables in which 173, the soft hyphen, is mapped to nothing, and nothing else is special.
abbrev tables : Tables
tables = record {
  a1 = λ c. false;
  b1 = λ c. edgedb_python.Prelude.nat_beq c 173;
  c12 = λ c. false;
  c21_c22 = λ c. false;
  c3 = λ c. false;
  c4 = λ c. false;
  c5 = λ c. false;
  c6 = λ c. false;
  c7 = λ c. false;
  c8 = λ c. false;
  c9 = λ c. false;
  d1 = λ c. false;
  d2 = λ c. false;
  normalize = λ xs. xs;
}

saslprep_sound_example : IsPrepared tables true password
unfolding saslprep map_step check_normalized check_all is_prohibited
saslprep_sound_example = saslprep_sound tables (b'p' ∷ 173 ∷ b'e' ∷ b'n' ∷ []) true refl
