-- ===== src/Scram/Library.antt =====
-- What edgedb/scram uses of Python's standard library, and what it relies on there. Text is its
-- UTF-8 bytes.
use edgedb_python.Prelude.Int.{ℤ}
use edgedb_python.Prelude.{◌≡◌, ◌≢◌, Bool, [], Option, some, length}
use edgedb_python.Errors.Raise.{Result, ok}
use edgedb_python.Scram.Bytes.{Bytes, IsBytes}
use edgedb_python.Scram.Text.{IsFree}

pub record Library : Type 0 where
  -- `hmac.new(key, msg, digestmod=hashlib.sha256).digest()`
  pub hmac : Bytes → Bytes → Bytes
  -- `hashlib.sha256(s).digest()`
  pub sha256 : Bytes → Bytes
  -- `base64.b64encode`, `base64.b64decode`
  pub b64encode : Bytes → Bytes
  pub b64decode : Bytes → Result Bytes
  -- `f'{n}'` and `int(text)`; `none` stands for a ValueError.
  pub decimal : ℤ → Bytes
  pub read_int : Bytes → Option ℤ
  -- `text.isprintable()` on ASCII text
  pub isprintable : Bytes → Bool
  -- `saslprep(text)`
  pub saslprep : Bytes → Result Bytes

-- The separators of the messages and of the verifier: `,` `$` `:`.
pub record IsPlain (xs : Bytes) : Type 0 where
  pub no_comma : IsFree b',' xs
  pub no_dollar : IsFree b'$' xs
  pub no_colon : IsFree b':' xs

-- The documented behaviour that the protocol rests on: digests have 32 bytes, base64 and decimal
-- numbers read back and hold no separator, and the base64 text of some bytes is not empty.
pub record IsLawful (l : Library) : Type 0 where
  pub hmac-length : (k m : Bytes) → length (l.hmac k m) ≡ 32
  pub hmac-IsBytes : (k m : Bytes) → IsBytes (l.hmac k m)
  pub sha256-IsBytes : (m : Bytes) → IsBytes (l.sha256 m)
  pub decode-encode : (xs : Bytes) → IsBytes xs → l.b64decode (l.b64encode xs) ≡ ok xs
  pub encode-IsPlain : (xs : Bytes) → IsPlain (l.b64encode xs)
  pub encode-ne-nil : (xs : Bytes) → xs ≢ [] → l.b64encode xs ≢ []
  pub read-decimal : (n : ℤ) → l.read_int (l.decimal n) ≡ some n
  pub decimal-IsPlain : (n : ℤ) → IsPlain (l.decimal n)
