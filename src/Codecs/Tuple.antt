-- ===== src/Codecs/Tuple.antt =====
-- edgedb/protocol/codecs/base.pyx, tuple.pyx, namedtuple.pyx, object.pyx: tuples, whose elements have
-- codecs of their own. Named tuples and objects are read in the same way.
use Prim.Native.String.{◌++◌ as ◌+++◌}
use edgedb_python.Prelude.Int.{pos}
use edgedb_python.Prelude.{
  ◌+◌, ◌-◌, ◌^◌, String, Bool, true, false, not, ◌||◌, ◌&&◌, ltb, ◌==◌, nat_eq, List, [], ◌∷◌, ◌++◌,
  Option, if◌then◌else◌, length,
}
use edgedb_python.Errors.Class.{builtin, is_subclass}
use edgedb_python.Errors.Client.{invalid_argument_error}
use edgedb_python.Errors.Raise.{Exception, Result, ok, raised, new, require, ◌>>=◌, ◌>>◌}
use edgedb_python.Codecs.{Bytes, Wire, Codec, Kind, other, uint32}
use edgedb_python.Codecs.Array.{encode_item, decode_item}

-- `isinstance(codec, (ScalarCodec, ArrayCodec, EnumCodec))`
unfoldable pub is_argument : Kind → Bool
is_argument other = false
is_argument _ = true

unfoldable pub all_arguments : {V : Type 0} → List (Codec V) → Bool
unfolding is_argument
all_arguments [] = true
all_arguments (c ∷ cs) = is_argument c.kind && all_arguments cs

-- `except (TypeError, ValueError) as e`; the message ends where the argument's number is printed.
unfoldable pub argument_error : Exception → Exception
unfolding is_subclass new
argument_error e =
    if is_subclass e.cls (builtin "TypeError") || is_subclass e.cls (builtin "ValueError")
    then new invalid_argument_error "invalid input for query argument $"
    else e

-- The words for the kind of record in the messages of `decode`.
pub record Words : Type 0 where
  pub name : String
  pub element : String

abbrev pub tuple_words : Words
tuple_words = record { name = "Tuple"; element = "tuple" }

abbrev pub named_tuple_words : Words
named_tuple_words = record { name = "NamedTuple"; element = "named tuple" }

abbrev pub object_words : Words
object_words = record { name = "Object"; element = "object" }

module _ {V : Type 0} (w : Wire) where
  open w use {int32, unpack_int32, frb_read}

  -- The loop of `encode`, over as many codecs as elements.
  unfoldable pub encode_fields : List (Codec V) → List (Option V) → Result Bytes
  unfolding encode_item argument_error
  encode_fields (codec ∷ codecs) (item ∷ items) = do
    b ← encode_item w argument_error codec item
    bs ← encode_fields codecs items
    ok (int32 (pos 0) ++ (b ++ bs))
  encode_fields codecs items = ok []

  -- `encode` of a record that is not empty.
  unfoldable pub encode_record : List (Codec V) → List (Option V) → Result Bytes
  unfolding encode_fields new
  encode_record codecs items = do
    require (not (ltb (2 ^ 31 - 1) (length items)))
        (new (builtin "ValueError") "too many elements for a tuple")
    require (length items == length codecs) (new (builtin "ValueError") "expected ")
    elem_data ← encode_fields codecs items
    ok (int32 (pos (4 + length elem_data)) ++ (int32 (pos (length items)) ++ elem_data))

  -- `BaseRecordCodec.encode`
  unfoldable pub encode : List (Codec V) → List (Option V) → Result Bytes
  unfolding all_arguments encode_record new
  encode codecs items = do
    require (all_arguments codecs)
        (new (builtin "TypeError") "argument tuples only support scalars and arrays of scalars")
    if length items == 0
        then ok (0 ∷ 0 ∷ 0 ∷ 4 ∷ 0 ∷ 0 ∷ 0 ∷ 0 ∷ [])
        else encode_record codecs items

  -- The loop of `decode`
  unfoldable pub decode_fields : Words → List (Codec V) → Bytes → Result (List (Option V) × Bytes)
  unfolding decode_item
  decode_fields words [] buf = ok ([], buf)
  decode_fields words (codec ∷ codecs) buf = do
    reserved ← frb_read 4 buf
    len ← frb_read 4 reserved.1
    item ← decode_item w words.element codec (unpack_int32 len.0) len.1
    rest ← decode_fields words codecs item.1
    ok (item.0 ∷ rest.0, rest.1)

  -- `decode`
  unfoldable pub decode : Words → List (Codec V) → Bytes → Result (List (Option V) × Bytes)
  unfolding decode_fields uint32 new
  decode words codecs buf = do
    count ← frb_read 4 buf
    require (uint32 (unpack_int32 count.0) == length codecs)
        (new (builtin "RuntimeError") ("cannot decode " +++ (words.name +++ ": expected ")))
    decode_fields words codecs count.1

  -- `TupleCodec`, and with other words `NamedTupleCodec`
  unfoldable pub tuple_codec : Words → List (Codec V) → Codec (List (Option V))
  unfolding encode decode
  tuple_codec words codecs = record {
    kind = other;
    encode = encode codecs;
    decode = decode words codecs;
  }

  -- `NamedTupleCodec.decode`; the names of the elements are those of the type.
  unfoldable pub named_tuple_decode : List (Codec V) → Bytes → Result (List (Option V) × Bytes)
  unfolding decode
  named_tuple_decode = decode named_tuple_words

  -- `ObjectCodec.decode`, and `ObjectCodec.encode`, which raises NotImplementedError
  unfoldable pub object_codec : List (Codec V) → Codec (List (Option V))
  unfolding decode new
  object_codec codecs = record {
    kind = other;
    encode = λ items. raised (new (builtin "NotImplementedError") "");
    decode = decode object_words codecs;
  }
