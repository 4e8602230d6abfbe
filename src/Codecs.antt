-- ===== src/Codecs.antt =====
-- edgedb/protocol/codecs: how arguments are written and results are read. The buffers and the codecs
-- of scalars, which the submodule edgedb/pgproto has, are parameters.
pub mod Read
pub mod Types
pub mod Build
pub mod Skip
pub mod Follows
pub mod Shrinks
pub mod Annotations
pub mod Skipped
pub mod Registry
pub mod Scalars
pub mod Bigint
pub mod Durations
pub mod Array
pub mod Tuple
pub mod Items
pub mod Sent
pub mod Fields
pub mod Named
pub mod Arguments
use edgedb_python.Prelude.Int.{ℤ, pos, negsuc}
use edgedb_python.Prelude.{
  ℕ, suc, ◌+◌, ◌-◌, ◌^◌, ◌≤◌, ◌<◌, ◌≡◌, Bool, true, false, List, [], ◌∷◌, ◌++◌, Option, none, some,
  length,
}
use edgedb_python.Errors.Raise.{Result, ok}

abbrev pub Bytes : Type 0
Bytes = List ℕ

-- The functions on buffers. Reading gives the bytes read and those left.
pub record Wire : Type 0 where
  -- The bytes that `WriteBuffer.write_int32` adds.
  pub int32 : ℤ → Bytes
  -- `hton.unpack_int32`
  pub unpack_int32 : Bytes → ℤ
  -- `hton.unpack_uint32`
  pub unpack_uint32 : Bytes → ℕ
  -- `WriteBuffer.write_int16`, `hton.unpack_int16`
  pub int16 : ℤ → Bytes
  pub unpack_int16 : Bytes → ℤ
  -- `WriteBuffer.write_int64`, `hton.unpack_int64`
  pub int64 : ℤ → Bytes
  pub unpack_int64 : Bytes → ℤ
  -- `frb_read(buf, n)`
  pub frb_read : ℕ → Bytes → Result (Bytes × Bytes)
  -- `frb_slice_from(&elem_buf, buf, len)`: the slice, and what is left of `buf`
  pub frb_slice_from : ℤ → Bytes → Result (Bytes × Bytes)

abbrev pub IsInt32 : ℤ → Type 0
IsInt32 (pos n) = n < 2 ^ 31
IsInt32 (negsuc n) = n < 2 ^ 31

abbrev pub IsInt16 : ℤ → Type 0
IsInt16 (pos n) = n < 2 ^ 15
IsInt16 (negsuc n) = n < 2 ^ 15

abbrev pub IsInt64 : ℤ → Type 0
IsInt64 (pos n) = n < 2 ^ 63
IsInt64 (negsuc n) = n < 2 ^ 63

-- What the code relies on: two, four or eight bytes stand for a number, the last one for its lowest part;
-- reading as many bytes as there are before the rest gives these, and reading gives as many bytes as
-- were asked for, from the front.
pub record IsWire (w : Wire) : Type 0 where
  pub unpack-int32 : (z : ℤ) → IsInt32 z → w.unpack_int32 (w.int32 z) ≡ z
  pub length-int32 : (z : ℤ) → length (w.int32 z) ≡ 4
  pub int32_zero : w.int32 (pos 0) ≡ 0 ∷ 0 ∷ 0 ∷ 0 ∷ []
  pub int32_four : w.int32 (pos 4) ≡ 0 ∷ 0 ∷ 0 ∷ 4 ∷ []
  pub unpack-int16 : (z : ℤ) → IsInt16 z → w.unpack_int16 (w.int16 z) ≡ z
  pub int16_zero : w.int16 (pos 0) ≡ 0 ∷ 0 ∷ []
  pub length-int16 : (z : ℤ) → length (w.int16 z) ≡ 2
  pub unpack-int64 : (z : ℤ) → IsInt64 z → w.unpack_int64 (w.int64 z) ≡ z
  pub length-int64 : (z : ℤ) → length (w.int64 z) ≡ 8
  pub read_back :
      (n : ℕ) (buf a b : Bytes) → w.frb_read n buf ≡ ok (a, b) → (buf ≡ a ++ b) × (length a ≡ n)
  pub read_front : (a b : Bytes) → w.frb_read (length a) (a ++ b) ≡ ok (a, b)
  pub slice_front : (a b : Bytes) → w.frb_slice_from (pos (length a)) (a ++ b) ≡ ok (a, b)

-- The class of a codec.
pub data Kind : Type 0 where
  scalar array enum other : Kind

-- A codec for values of the type `V`: `encode` gives the bytes that are added to the buffer, `decode`
-- the value and the bytes left.
pub record Codec (V : Type 0) : Type 0 where
  pub kind : Kind
  pub encode : V → Result Bytes
  pub decode : Bytes → Result (V × Bytes)

-- `<Py_ssize_t><uint32_t>`
unfoldable pub uint32 : ℤ → ℕ
uint32 (pos n) = n
uint32 (negsuc n) = 2 ^ 32 - suc n

-- `<uint16_t>`
unfoldable pub uint16 : ℤ → ℕ
uint16 (pos n) = n
uint16 (negsuc n) = 2 ^ 16 - suc n

-- The codec writes this value as its length and its data, from which it reads it back.
abbrev pub IsSent : {V : Type 0} → Wire → Codec V → V → Type 0
IsSent w codec v =
    (data_ : Bytes) × (codec.encode v ≡ ok (w.int32 (pos (length data_)) ++ data_))
    × (codec.decode data_ ≡ ok (v, []))
    × (length data_ < 2 ^ 31)

-- The same for an element, which may be missing.
abbrev pub IsItemSent : {V : Type 0} → Wire → Codec V → Option V → Type 0
IsItemSent w codec none = Unit
IsItemSent w codec (some v) = IsSent w codec v
