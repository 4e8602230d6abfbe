-- ===== src/Codecs/Durations.antt =====
-- edgedb/protocol/codecs/codecs.pyx: durations. A duration is its number of microseconds; the division
-- by a microsecond, whose result is a floating-point number, is a parameter.
pub mod Sent
use edgedb_python.Prelude.Int.{ℤ, pos, negsuc}
use edgedb_python.Prelude.{
  zero, ℕ, suc, ◌+◌, ◌^◌, ◌≤◌, ◌<◌, ◌≡◌, refl, ap, sym, ◌∙◌, Bool, true, false, ltb, List, [], ◌∷◌,
  ◌++◌, length, length-append, if◌then◌else◌, arith,
}
use edgedb_python.Datatypes.{RelativeDuration, is_zero}
use edgedb_python.Errors.Class.{builtin}
use edgedb_python.Errors.Raise.{Result, ok, raised, new}
use edgedb_python.Codecs.{Bytes, Wire, IsWire, IsInt32, IsInt64, Codec, scalar, IsSent}
use edgedb_python.Codecs.Read.{Read, ◌>>=◌, ◌>>◌, pure, lift}
use edgedb_python.Codecs.Follows.{and_then}

-- The conversion of a Python integer to one of 8 or of 4 bytes.
unfoldable pub to_int64 : ℤ → Result ℤ
unfolding new
to_int64 (pos n) =
    if ltb n (2 ^ 63)
    then ok (pos n)
    else raised (new (builtin "OverflowError") "value too large to convert to int64_t")
to_int64 (negsuc n) =
    if ltb n (2 ^ 63)
    then ok (negsuc n)
    else raised (new (builtin "OverflowError") "value too large to convert to int64_t")

unfoldable pub to_int32 : ℤ → Result ℤ
unfolding new
to_int32 (pos n) =
    if ltb n (2 ^ 31)
    then ok (pos n)
    else raised (new (builtin "OverflowError") "value too large to convert to int32_t")
to_int32 (negsuc n) =
    if ltb n (2 ^ 31)
    then ok (negsuc n)
    else raised (new (builtin "OverflowError") "value too large to convert to int32_t")

module _ (w : Wire) where
  open w use {int32, int64, frb_read}

  unfoldable pub read_int64 : Read ℤ
  read_int64 = do b ← frb_read 8; pure (w.unpack_int64 b)

  unfoldable pub read_int32 : Read ℤ
  read_int32 = do b ← frb_read 4; pure (w.unpack_int32 b)

  -- `duration_encode`, where `quotient` gives the integer part of the floating-point number of
  -- microseconds
  unfoldable pub duration_encode : (ℤ → ℤ) → ℤ → Result Bytes
  unfolding to_int64
  duration_encode quotient obj = elim (to_int64 (quotient obj)) [
    | raised e ↦ raised e
    | ok microseconds ↦
        ok (int32 (pos 16) ++ (int64 microseconds ++ (int32 (pos 0) ++ int32 (pos 0))))
  ]

  unfoldable pub check_reserved : ℤ → ℤ → Result (Unit {0})
  unfolding is_zero new
  check_reserved days months =
      if is_zero days
      then if is_zero months
        then ok tt
        else raised (new (builtin "RuntimeError") "non-zero reserved bytes in duration")
      else raised (new (builtin "RuntimeError") "non-zero reserved bytes in duration")

  -- `duration_decode`
  unfoldable pub duration_decode : Read ℤ
  unfolding read_int64 read_int32 check_reserved
  duration_decode = do
    microseconds ← read_int64
    days ← read_int32
    months ← read_int32
    lift (check_reserved days months)
    pure microseconds

  unfoldable pub duration_codec : (ℤ → ℤ) → Codec ℤ
  unfolding duration_encode duration_decode
  duration_codec quotient = record {
    kind = scalar;
    encode = duration_encode quotient;
    decode = duration_decode;
  }

  -- `relative_duration_encode`
  unfoldable pub relative_duration_encode : RelativeDuration → Result Bytes
  unfolding to_int64 to_int32
  relative_duration_encode obj = elim (to_int64 obj.microseconds) [
    | raised e ↦ raised e
    | ok microseconds ↦ elim (to_int32 obj.days) [
      | raised e ↦ raised e
      | ok days ↦ elim (to_int32 obj.months) [
        | raised e ↦ raised e
        | ok months ↦ ok (int32 (pos 16) ++ (int64 microseconds ++ (int32 days ++ int32 months)))
      ]
    ]
  ]

  -- `relative_duration_decode`
  unfoldable pub relative_duration_decode : Read RelativeDuration
  unfolding read_int64 read_int32
  relative_duration_decode = do
    microseconds ← read_int64
    days ← read_int32
    months ← read_int32
    pure (record { microseconds = microseconds; days = days; months = months })

  unfoldable pub relative_duration_codec : Codec RelativeDuration
  unfolding relative_duration_encode relative_duration_decode
  relative_duration_codec = record {
    kind = scalar;
    encode = relative_duration_encode;
    decode = relative_duration_decode;
  }
