-- ===== src/Codecs/Bigint.antt =====
-- edgedb/protocol/codecs/codecs.pyx: integers of any size, as digits to the base 10000.
pub mod Digits
pub mod Sent
use edgedb_python.Prelude.Int.{ℤ, pos, negsuc}
use edgedb_python.Prelude.{
  ℕ, zero, suc, ◌+◌, ◌-◌, ◌*◌, ◌/◌, ◌%◌, Bool, true, false, ◌&&◌, ltb, leb, ◌==◌, nat_eq, List, [],
  ◌∷◌, ◌++◌, Option, none, some, if◌then◌else◌, length,
}
use edgedb_python.Errors.Class.{builtin}
use edgedb_python.Errors.Raise.{Result, ok, raised, new}
use edgedb_python.Codecs.{Bytes, Wire, Codec, scalar}
use edgedb_python.Codecs.Read.{Read, ◌>>=◌, ◌>>◌, pure, lift, read_uint16}

-- `while obj`: the digits, the lowest one first. `obj` units of fuel are enough, since a division by
-- 10000 makes a number other than 0 smaller.
unfoldable pub digits : ℕ → ℕ → List ℕ
digits zero obj = []
digits (suc fuel) obj =
    let rest = digits fuel (obj / 10000) in if obj == 0 then [] else obj % 10000 ∷ rest

abbrev pub magnitude : ℤ → ℕ
magnitude (pos n) = n
magnitude (negsuc n) = suc n

abbrev pub sign_code : ℤ → ℕ
sign_code (pos n) = 0x0000
sign_code (negsuc n) = 0x4000

-- The decimal digits of a number of at most 16 bits, as ASCII text: `str(n)`
unfoldable pub decimal : ℕ → Bytes
decimal n =
    if ltb n 10
    then (48 + n) ∷ []
    else if ltb n 100
    then (48 + n / 10) ∷ (48 + n % 10) ∷ []
    else if ltb n 1000
    then (48 + n / 100) ∷ (48 + n / 10 % 10) ∷ (48 + n % 10) ∷ []
    else if ltb n 10000
    then (48 + n / 1000) ∷ (48 + n / 100 % 10) ∷ (48 + n / 10 % 10) ∷ (48 + n % 10) ∷ []
    else (48 + n / 10000)
      ∷ (48 + n / 1000 % 10)
      ∷ (48 + n / 100 % 10)
      ∷ (48 + n / 10 % 10)
      ∷ (48 + n % 10)
      ∷ []

-- `zfill(4)` of digits
unfoldable pub zfill : Bytes → Bytes
zfill [] = 48 ∷ 48 ∷ 48 ∷ 48 ∷ []
zfill (a ∷ []) = 48 ∷ 48 ∷ 48 ∷ a ∷ []
zfill (a ∷ b ∷ []) = 48 ∷ 48 ∷ a ∷ b ∷ []
zfill (a ∷ b ∷ c ∷ []) = 48 ∷ a ∷ b ∷ c ∷ []
zfill text = text

-- `int(text)` of decimal digits
unfoldable pub value : ℕ → Bytes → ℕ
value acc [] = acc
value acc (c ∷ cs) = value (acc * 10 + (c - 48)) cs

-- `int('-' + text)`, and `int(text)`
unfoldable pub signed_value : Bool → Bytes → ℤ
unfolding value
signed_value negative text = elim (value 0 text) [
  | zero ↦ pos 0
  | suc n ↦ if negative then negsuc n else pos (suc n)
]

unfoldable pub check_sign : ℕ → Result Bool
unfolding new
check_sign sign =
    if sign == 0x4000
    then ok true
    else if sign == 0x0000
    then ok false
    else raised (new (builtin "ValueError") "bad bigint sign data")

unfoldable pub check_scale : ℕ → Result (Unit {0})
unfolding new
check_scale dscale =
    if dscale == 0
    then ok tt
    else raised (new (builtin "ValueError") "bigint data has fractional part")

module _ (w : Wire) where
  open w use {int32, int16, frb_read}

  unfoldable pub write_digits : List ℕ → Bytes
  write_digits [] = []
  write_digits (d ∷ ds) = write_digits ds ++ int16 (pos d)

  -- `bigint_encode` of a number other than 0, from its digits.
  unfoldable pub encode_digits : ℕ → List ℕ → Bytes
  unfolding write_digits
  encode_digits sign ds =
      int32 (pos (8 + length ds * 2))
      ++ (int16 (pos (length ds))
          ++ (int16 (pos (length ds - 1))
              ++ (int16 (pos sign) ++ (int16 (pos 0) ++ write_digits ds))))

  -- `bigint_encode`
  unfoldable pub bigint_encode : ℤ → Result Bytes
  unfolding digits encode_digits
  bigint_encode (pos zero) =
      ok (int32 (pos 8) ++ (int32 (pos 0) ++ (int16 (pos 0) ++ int16 (pos 0))))
  bigint_encode obj = ok (encode_digits (sign_code obj) (digits (magnitude obj) (magnitude obj)))

  -- The loop of `bigint_decode` for the last `n` values of `i`, where `left` digits are not yet read.
  unfoldable pub read_text : ℕ → ℕ → Read Bytes
  unfolding zfill decimal
  read_text zero left = pure []
  read_text (suc n) zero = do rest ← read_text n zero; pure (48 ∷ 48 ∷ 48 ∷ 48 ∷ rest)
  read_text (suc n) (suc left) = do
    d ← read_uint16 w
    rest ← read_text n left
    pure (zfill (decimal d) ++ rest)

  -- `bigint_decode` after its header.
  unfoldable pub decode_digits : ℕ → ℕ → Bool → Read ℤ
  unfolding read_text signed_value
  decode_digits zero weight negative = pure (pos 0)
  decode_digits (suc n) weight negative = do
    text ← read_text (suc weight) (suc n)
    pure (signed_value negative text)

  -- `bigint_decode`
  unfoldable pub bigint_decode : Read ℤ
  unfolding check_sign check_scale decode_digits
  bigint_decode = do
    ndigits ← read_uint16 w
    weight ← read_uint16 w
    sign ← read_uint16 w
    dscale ← read_uint16 w
    negative ← lift (check_sign sign)
    lift (check_scale dscale)
    decode_digits ndigits weight negative

  unfoldable pub bigint_codec : Codec ℤ
  unfolding bigint_encode bigint_decode
  bigint_codec = record { kind = scalar; encode = bigint_encode; decode = bigint_decode }
