-- ===== src/Codecs/Durations/Sent.antt =====
-- Durations are read as they were written.
use mathlib.Core.List.{append-nil}
use edgedb_python.Prelude.Int.{ℤ, pos, negsuc}
use edgedb_python.Prelude.{◌≡◌, ap, sym, ◌∙◌, [], ◌++◌, length, length-append, arith}
use edgedb_python.Datatypes.{RelativeDuration, is_zero}
use edgedb_python.Errors.Raise.{ok}
use edgedb_python.Codecs.{Bytes, Wire, IsWire, IsInt32, IsInt64, IsSent}
use edgedb_python.Codecs.Read.{Read, ◌>>=◌, pure, lift}
use edgedb_python.Codecs.Follows.{and_then}
use edgedb_python.Codecs.Durations.{
  to_int64, to_int32, read_int64, read_int32, duration_encode, duration_decode, duration_codec,
  check_reserved, relative_duration_encode, relative_duration_decode, relative_duration_codec,
}

fits64 : (z : ℤ) → IsInt64 z → to_int64 z ≡ ok z
unfolding to_int64
fits64 (pos n) lt = ground arith
fits64 (negsuc n) lt = ground arith

fits32 : (z : ℤ) → IsInt32 z → to_int32 z ≡ ok z
unfolding to_int32
fits32 (pos n) lt = ground arith
fits32 (negsuc n) lt = ground arith

module _ (w : Wire) (v : IsWire w) where
  open w use {int32, int64}

  read64 : (z : ℤ) (rest : Bytes) → IsInt64 z → read_int64 w (int64 z ++ rest) ≡ ok (z, rest)
  unfolding read_int64
  read64 z rest lt =
      and_then (w.frb_read 8) (λ b. pure (w.unpack_int64 b)) (int64 z ++ rest) rest (int64 z)
        (ap (λ k. w.frb_read k (int64 z ++ rest)) (sym (v.length-int64 z))
          ∙ v.read_front (int64 z) rest)
      ∙ ap (λ z. ok (z, rest)) (v.unpack-int64 z lt)

  read32 : (z : ℤ) (rest : Bytes) → IsInt32 z → read_int32 w (int32 z ++ rest) ≡ ok (z, rest)
  unfolding read_int32
  read32 z rest lt =
      and_then (w.frb_read 4) (λ b. pure (w.unpack_int32 b)) (int32 z ++ rest) rest (int32 z)
        (ap (λ k. w.frb_read k (int32 z ++ rest)) (sym (v.length-int32 z))
          ∙ v.read_front (int32 z) rest)
      ∙ ap (λ z. ok (z, rest)) (v.unpack-int32 z lt)

  -- The data of a duration.
  abbrev data_of : ℤ → ℤ → ℤ → Bytes
  data_of us days months = int64 us ++ (int32 days ++ int32 months)

  length-data_of : (us days months : ℤ) → length (data_of us days months) ≡ 16
  length-data_of us days months = omega (
    arith,
    length-append (int64 us) (int32 days ++ int32 months),
    length-append (int32 days) (int32 months),
    v.length-int64 us,
    v.length-int32 days,
    v.length-int32 months,
  )

  -- The three numbers of a duration are read as they were written.
  read_three :
      {A : Type 0} (k : ℤ → ℤ → ℤ → Read A) (us days months : ℤ)
      → IsInt64 us
      → IsInt32 days
      → IsInt32 months
      → (read_int64 w >>= λ us.
            read_int32 w >>= λ days. read_int32 w >>= λ months. k us days months)
          (data_of us days months)
        ≡ k us days months []
  read_three k us days months lu ld lm =
      and_then (read_int64 w)
        (λ us. read_int32 w >>= λ days. read_int32 w >>= λ months. k us days months)
        (data_of us days months) (int32 days ++ int32 months) us
        (read64 us (int32 days ++ int32 months) lu)
      ∙ and_then (read_int32 w) (λ days. read_int32 w >>= λ months. k us days months)
          (int32 days ++ int32 months) (int32 months) days (read32 days (int32 months) ld)
      ∙ and_then (read_int32 w) (λ months. k us days months) (int32 months) [] months
          (ap (read_int32 w) (sym (append-nil (int32 months))) ∙ read32 months [] lm)

  -- A duration is read as it was written, if the division of its microseconds is exact and they fit
  -- into 8 bytes.
  pub duration_codec-IsSent :
      (quotient : ℤ → ℤ) (z : ℤ)
      → quotient z ≡ z
      → IsInt64 z
      → IsSent w (duration_codec w quotient) z
  unfolding duration_codec duration_encode duration_decode check_reserved is_zero
  duration_codec-IsSent quotient z exact lt =
      let k : ℤ → ℤ → ℤ → Read ℤ =
        λ us days months. lift (check_reserved w days months) >>= λ _. pure us in
      let size = length-data_of z (pos 0) (pos 0) in
      (
        data_of z (pos 0) (pos 0),
        rw (exact, duration_encode)
            (rw (fits64 z lt)
              (ap (λ n. ok (int32 (pos n) ++ data_of z (pos 0) (pos 0))) (sym size))),
        read_three k z (pos 0) (pos 0) lt (omega arith) (omega arith),
        omega (arith, size),
      )

  -- A relative duration is read as it was written, if its microseconds fit into 8 bytes and its days
  -- and months into 4.
  pub relative_duration_codec-IsSent :
      (d : RelativeDuration)
      → IsInt64 d.microseconds
      → IsInt32 d.days
      → IsInt32 d.months
      → IsSent w (relative_duration_codec w) d
  unfolding relative_duration_codec relative_duration_encode relative_duration_decode
  relative_duration_codec-IsSent d lu ld lm =
      let k : ℤ → ℤ → ℤ → Read RelativeDuration =
        λ us days months. pure (record { microseconds = us; days = days; months = months }) in
      let size = length-data_of d.microseconds d.days d.months in
      (
        data_of d.microseconds d.days d.months,
        rw (fits64 d.microseconds lu, relative_duration_encode)
            (rw (fits32 d.days ld) (
              rw (fits32 d.months lm) (
                ap (λ n. ok (int32 (pos n) ++ data_of d.microseconds d.days d.months))
                  (sym size)))),
        read_three k d.microseconds d.days d.months lu ld lm,
        omega (arith, size),
      )
