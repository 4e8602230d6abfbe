-- ===== src/Codecs/Array.antt =====
-- edgedb/protocol/codecs/array.pyx: arrays, whose elements are of one type.
use Prim.Native.String.{◌++◌ as ◌+++◌}
use edgedb_python.Prelude.Int.{ℤ, pos, negsuc}
use edgedb_python.Prelude.{
  ℕ, zero, suc, ◌+◌, ◌-◌, ◌^◌, String, Bool, true, false, not, ltb, ◌==◌, nat_eq, List, [], ◌∷◌,
  ◌++◌, Option, none, some, if◌then◌else◌, length,
}
use edgedb_python.Errors.Class.{builtin, is_subclass}
use edgedb_python.Errors.Raise.{Exception, Result, ok, raised, new, require, ◌>>=◌, ◌>>◌}
use edgedb_python.Codecs.{Bytes, Wire, Codec, Kind, scalar, array, uint32}

unfoldable pub is_empty : Bytes → Bool
is_empty [] = true
is_empty (b ∷ bs) = false

unfoldable pub is_scalar : Kind → Bool
is_scalar scalar = true
is_scalar _ = false

-- `except TypeError as e: raise ValueError(...)` for an element
unfoldable pub element_error : Exception → Exception
unfolding is_subclass new
element_error e =
    if is_subclass e.cls (builtin "TypeError")
    then new (builtin "ValueError") ("invalid array element: " +++ e.message)
    else e

-- The header, and the elements.
unfoldable pub array_bytes : Wire → ℕ → Bytes → Bytes
array_bytes w count elem_data =
    w.int32 (pos (12 + 8 + length elem_data))
    ++ (w.int32 (pos 1)
        ++ (w.int32 (pos 0)
            ++ (w.int32 (pos 0) ++ (w.int32 (pos count) ++ (w.int32 (pos 1) ++ elem_data)))))

-- An array type of this cardinality, which is -1 for any, has arrays of `count` elements.
unfoldable pub allows : ℤ → ℕ → Bool
allows (pos n) count = count == n
allows (negsuc zero) count = true
allows (negsuc (suc n)) count = false

module _ {V : Type 0} (w : Wire) where
  open w use {int32, unpack_int32, frb_read, frb_slice_from}

  -- The bytes of one element; `fix` is what becomes of an error.
  unfoldable pub encode_item : (Exception → Exception) → Codec V → Option V → Result Bytes
  encode_item fix codec none = ok (int32 (negsuc 0))
  encode_item fix codec (some v) = elim (codec.encode v) [ raised e ↦ raised (fix e) | ok b ↦ ok b ]

  -- The loop of `encode`
  unfoldable pub encode_items : Codec V → List (Option V) → Result Bytes
  unfolding encode_item element_error
  encode_items codec [] = ok []
  encode_items codec (item ∷ items) = do
    b ← encode_item element_error codec item
    bs ← encode_items codec items
    ok (b ++ bs)

  -- `BaseArrayCodec.encode`
  unfoldable pub encode : Codec V → List (Option V) → Result Bytes
  unfolding is_scalar encode_items array_bytes new
  encode codec items = do
    require (is_scalar codec.kind)
        (new (builtin "TypeError") "only arrays of scalars are supported")
    require (not (ltb (2 ^ 31 - 1) (length items)))
        (new (builtin "ValueError") "too many elements in array value")
    elem_data ← encode_items codec items
    ok (array_bytes w (length items) elem_data)

  -- An element of this length, and what is left; `what` names it in the message.
  unfoldable pub decode_item : String → Codec V → ℤ → Bytes → Result (Option V × Bytes)
  unfolding is_empty new
  decode_item what codec (negsuc zero) buf = ok (none, buf)
  decode_item what codec elem_len buf = do
    slice ← frb_slice_from elem_len buf
    elem ← codec.decode slice.0
    require (is_empty elem.1) (
        new (builtin "RuntimeError")
          ("unexpected trailing data in buffer after " +++ (what +++ " element decoding: ")))
    ok (some elem.0, slice.1)

  -- The loop of `_decode_array`
  unfoldable pub decode_items : Codec V → ℕ → Bytes → Result (List (Option V) × Bytes)
  unfolding decode_item
  decode_items codec zero buf = ok ([], buf)
  decode_items codec (suc n) buf = do
    len ← frb_read 4 buf
    item ← decode_item "array" codec (unpack_int32 len.0) len.1
    rest ← decode_items codec n item.1
    ok (item.0 ∷ rest.0, rest.1)

  -- `_decode_array` after the dimensions
  unfoldable pub decode_elements : ℤ → Codec V → Bytes → Result (List (Option V) × Bytes)
  unfolding decode_items uint32 allows new
  decode_elements cardinality codec buf = do
    count ← frb_read 4 buf
    require (allows cardinality (uint32 (unpack_int32 count.0)))
        (new (builtin "ValueError") "invalid array size: received ")
    lower_bound ← frb_read 4 count.1
    decode_items codec (uint32 (unpack_int32 count.0)) lower_bound.1

  -- `_decode_array` for this number of dimensions.
  unfoldable pub decode_dims : ℤ → Codec V → ℤ → Bytes → Result (List (Option V) × Bytes)
  unfolding decode_elements new
  decode_dims cardinality codec (pos zero) buf = ok ([], buf)
  decode_dims cardinality codec (pos (suc zero)) buf = decode_elements cardinality codec buf
  decode_dims cardinality codec (pos (suc (suc n))) buf =
      raised (new (builtin "RuntimeError") "only 1-dimensional arrays are supported")
  decode_dims cardinality codec (negsuc n) buf = raised (new (builtin "AssertionError") "")

  -- `_decode_array`
  unfoldable pub decode : ℤ → Codec V → Bytes → Result (List (Option V) × Bytes)
  unfolding decode_dims
  decode cardinality codec buf = do
    ndims ← frb_read 4 buf
    flags ← frb_read 4 ndims.1
    reserved ← frb_read 4 flags.1
    decode_dims cardinality codec (unpack_int32 ndims.0) reserved.1

  -- `ArrayCodec`
  unfoldable pub array_codec : ℤ → Codec V → Codec (List (Option V))
  unfolding encode decode
  array_codec cardinality codec = record {
    kind = array;
    encode = encode codec;
    decode = decode cardinality codec;
  }
