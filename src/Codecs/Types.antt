-- ===== src/Codecs/Types.antt =====
-- edgedb/protocol/codecs/codecs.pyx: the codecs that type descriptors describe, and how a descriptor
-- is read. A codec is its class with what `new` is given.
use edgedb_python.Prelude.Int.{ℤ}
use edgedb_python.Prelude.{
  ℕ, ◌/◌, ◌%◌, String, Bool, true, false, ◌||◌, ltb, leb, ◌==◌, nat_eq, List, [], ◌∷◌, none, some,
  if◌then◌else◌, get_elem?,
}
use edgedb_python.Errors.Class.{builtin}
use edgedb_python.Errors.Raise.{Result, ok, raised, new}
use edgedb_python.Codecs.{Bytes}

-- `CTYPE_SET` to `CTYPE_ENUM`, and the other values of the first byte.
pub data Ctype : Type 0 where
  set shape base_scalar scalar tuple namedtuple array enum annotation unknown : Ctype

unfoldable pub ctype : ℕ → Ctype
ctype t =
    elim (get_elem? {A = Ctype}
      (set ∷ shape ∷ base_scalar ∷ scalar ∷ tuple ∷ namedtuple ∷ array ∷ enum ∷ []) t) [
        | some c ↦ c
        | none ↦ if leb 0x7f t then annotation else unknown
      ]

mutual
  -- A codec, with its `tid` first; names and flags stand before the codecs of the elements.
  pub data TypeCodec : Type 0 where
    null_codec empty_tuple_codec : TypeCodec
    base_codec override : Bytes → TypeCodec
    derived set_codec : Bytes → TypeCodec → TypeCodec
    object_codec : Bytes → List String → List ℕ → Fields → TypeCodec
    tuple_codec : Bytes → Fields → TypeCodec
    named_tuple_codec : Bytes → List String → Fields → TypeCodec
    array_codec : Bytes → TypeCodec → ℤ → TypeCodec
    enum_codec : Bytes → List String → TypeCodec

  pub data Fields : Type 0 where
    no_field : Fields
    field : TypeCodec → Fields → Fields

-- The bytes of a UUID that ends in this number.
unfoldable pub short_id : ℕ → Bytes
short_id n = 0 ∷ 0 ∷ 0 ∷ 0 ∷ 0 ∷ 0 ∷ 0 ∷ 0 ∷ 0 ∷ 0 ∷ 0 ∷ 0 ∷ 0 ∷ 0 ∷ n / 256 ∷ n % 256 ∷ []

unfoldable pub tid_of : TypeCodec → Bytes
unfolding short_id
tid_of null_codec = short_id 0
tid_of empty_tuple_codec = short_id 0xff
tid_of (base_codec tid) = tid
tid_of (override tid) = tid
tid_of (derived tid c) = tid
tid_of (set_codec tid c) = tid
tid_of (object_codec tid names flags cs) = tid
tid_of (tuple_codec tid cs) = tid
tid_of (named_tuple_codec tid names cs) = tid
tid_of (array_codec tid c n) = tid
tid_of (enum_codec tid names) = tid

-- `type(codec) is ScalarCodec`
unfoldable pub is_scalar_codec : TypeCodec → Bool
is_scalar_codec (base_codec tid) = true
is_scalar_codec (derived tid c) = true
is_scalar_codec _ = false

unfoldable pub fields_of : List TypeCodec → Fields
fields_of [] = no_field
fields_of (c ∷ cs) = field c (fields_of cs)

-- `codecs_list[pos]`
unfoldable pub codec_at : List TypeCodec → ℕ → Result TypeCodec
unfolding new
codec_at codecs pos = elim (get_elem? codecs pos) [
  | some c ↦ ok c
  | none ↦ raised (new (builtin "IndexError") "list index out of range")
]

unfoldable pub derive : Bytes → TypeCodec → Result TypeCodec
unfolding is_scalar_codec new
derive tid c =
    if is_scalar_codec c
    then ok (derived tid c)
    else raised (new (builtin "RuntimeError") "a scalar codec expected for base scalar type, got ")

-- `protocol_version >= (0, 11)`
unfoldable pub has_cardinality : ℕ × ℕ → Bool
has_cardinality (major, minor) = ltb 0 major || leb 11 minor

-- `if els != 1: raise NotImplementedError`
unfoldable pub one_dimension : ℕ → Result (Unit {0})
unfolding new
one_dimension els =
    if els == 1
    then ok tt
    else raised
        (new (builtin "NotImplementedError") "cannot handle arrays with more than one dimension")

-- `PyUnicode_FromStringAndSize`, and `BASE_SCALAR_CODECS[tid]` or the codec that overrides it.
pub record Names : Type 0 where
  pub utf8 : Bytes → Result String
  pub base : Bytes → Result TypeCodec
