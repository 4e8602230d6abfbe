-- ===== src/Tests/Library.antt =====
-- A small instance of the library that edgedb/scram uses: a checksum for the digests, two letters a
-- byte for base64, and a unary notation for numbers. It meets every law.
use edgedb_python.Prelude.Int.{ℤ, pos, negsuc}
use edgedb_python.Prelude.{
  ℕ, zero, suc, ◌+◌, ◌*◌, ◌-◌, ◌/◌, ◌%◌, ◌<◌, ◌≡◌, ◌≢◌, refl, ap, true, false, ◌==◌, nat_eq, [],
  ◌∷◌, Option, none, some, arith, length, if◌then◌else◌,
}
use edgedb_python.Errors.Class.{builtin}
use edgedb_python.Errors.Raise.{Result, ok, raised, new, ◌>>=◌}
use edgedb_python.Scram.Bytes.{Bytes, IsBytes}
use edgedb_python.Scram.Text.{IsFree}
use edgedb_python.Scram.Library.{Library, IsLawful, IsPlain}

unfoldable pub total : Bytes → ℕ
total [] = 0
total (x ∷ xs) = x + total xs

copies : ℕ → ℕ → Bytes
copies zero x = []
copies (suc n) x = x ∷ copies n x

unfoldable pub digest : ℕ → Bytes
unfolding copies
digest n = copies 32 (n % 256)

unfoldable pub encode : Bytes → Bytes
encode [] = []
encode (x ∷ xs) = (65 + x / 16) ∷ (65 + x % 16) ∷ encode xs

unfoldable pub decode : Bytes → Result Bytes
decode [] = ok []
decode (x ∷ []) = raised (new (builtin "Error") "Incorrect padding")
decode (x ∷ y ∷ xs) = decode xs >>= λ rest. ok (((x - 65) * 16 + (y - 65)) ∷ rest)

-- A number in unary notation, after `+` or `-`.
unfoldable pub write_int : ℤ → Bytes
unfolding copies
write_int (pos n) = b'+' ∷ copies n b'1'
write_int (negsuc n) = b'-' ∷ copies n b'1'

count : Bytes → ℕ
count [] = 0
count (x ∷ xs) = suc (count xs)

unfoldable pub read_signed : Bytes → Option ℤ
unfolding count
read_signed [] = none
read_signed (x ∷ xs) = if x == b'+' then some (pos (count xs)) else some (negsuc (count xs))

abbrev pub toy : Library
toy = record {
  hmac = λ k m. digest (total k + 3 * total m);
  sha256 = λ m. digest (total m + 1);
  b64encode = encode;
  b64decode = decode;
  decimal = write_int;
  read_int = read_signed;
  isprintable = λ xs. true;
  saslprep = λ xs. ok xs;
}

copies-length : (n x : ℕ) → length (copies n x) ≡ n
unfolding copies
copies-length zero x = refl
copies-length (suc n) x = ap suc (copies-length n x)

copies-IsBytes : (n x : ℕ) → x < 256 → IsBytes (copies n x)
unfolding copies
copies-IsBytes zero x h = tt
copies-IsBytes (suc n) x h = (h, copies-IsBytes n x h)

decode-encode : (xs : Bytes) → IsBytes xs → decode (encode xs) ≡ ok xs
unfolding decode encode
decode-encode [] b = refl
decode-encode (x ∷ xs) b =
    let e : (65 + x / 16 - 65) * 16 + (65 + x % 16 - 65) ≡ x = omega arith in
    rw (decode-encode xs b.1) (ap (λ (y : ℕ). ok (y ∷ xs)) e)

encode-IsFree : (sep : ℕ) (xs : Bytes) → sep < 65 → IsFree sep (encode xs)
unfolding encode
encode-IsFree sep [] h = tt
encode-IsFree sep (x ∷ xs) h = (ground arith, (ground arith, encode-IsFree sep xs h))

encode-ne-nil : (xs : Bytes) → xs ≢ [] → encode xs ≢ []
unfolding encode
encode-ne-nil [] h = absurd (h refl)
encode-ne-nil (x ∷ xs) h = λ e. cc

count-copies : (n x : ℕ) → count (copies n x) ≡ n
unfolding count copies
count-copies zero x = refl
count-copies (suc n) x = ap suc (count-copies n x)

read_signed-write_int : (n : ℤ) → read_signed (write_int n) ≡ some n
unfolding read_signed write_int
read_signed-write_int (pos n) = rw (count-copies n b'1')
read_signed-write_int (negsuc n) = rw (count-copies n b'1')

copies-IsFree : (sep n x : ℕ) → (x == sep) ≡ false → IsFree sep (copies n x)
unfolding copies
copies-IsFree sep zero x h = tt
copies-IsFree sep (suc n) x h = (h, copies-IsFree sep n x h)

write_int-IsPlain : (n : ℤ) → IsPlain (write_int n)
unfolding write_int
write_int-IsPlain (pos n) = record {
  no_comma = (refl, copies-IsFree b',' n b'1' refl);
  no_dollar = (refl, copies-IsFree b'$' n b'1' refl);
  no_colon = (refl, copies-IsFree b':' n b'1' refl);
}
write_int-IsPlain (negsuc n) = record {
  no_comma = (refl, copies-IsFree b',' n b'1' refl);
  no_dollar = (refl, copies-IsFree b'$' n b'1' refl);
  no_colon = (refl, copies-IsFree b':' n b'1' refl);
}

pub toy-IsLawful : IsLawful toy
unfolding digest
toy-IsLawful = record {
  hmac-length = λ k m. copies-length 32 ((total k + 3 * total m) % 256);
  hmac-IsBytes = λ k m. copies-IsBytes 32 _ (omega arith);
  sha256-IsBytes = λ m. copies-IsBytes 32 _ (omega arith);
  decode-encode = decode-encode;
  encode-IsPlain = λ xs. record {
    no_comma = encode-IsFree b',' xs (omega arith);
    no_dollar = encode-IsFree b'$' xs (omega arith);
    no_colon = encode-IsFree b':' xs (omega arith);
  };
  encode-ne-nil = encode-ne-nil;
  read-decimal = read_signed-write_int;
  decimal-IsPlain = write_int-IsPlain;
}
