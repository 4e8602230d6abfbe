-- ===== src/Codecs/Scalars.antt =====
-- edgedb/protocol/codecs/codecs.pyx, edb_types.pxi: the base scalar types, and the table of their
-- codecs. The functions that write and read their values are those of edgedb/pgproto, or stand in
-- Codecs/Bigint and Codecs/Durations.
use edgedb_python.Prelude.{String, List, [], ◌∷◌, none, some, string_eq}
use edgedb_python.Prelude.Dict.{get as lookup, put}
use edgedb_python.Errors.Class.{builtin}
use edgedb_python.Errors.Raise.{Result, ok, raised, new, ◌>>=◌}
use edgedb_python.Codecs.{Bytes}
use edgedb_python.Codecs.Types.{TypeCodec, base_codec, short_id}
use edgedb_python.Codecs.Registry.{bytes_eq}

-- `TYPE_IDS`
unfoldable pub type_ids : List (String × Bytes)
unfolding short_id
type_ids =
    ("anytype", short_id 0x001)
    ∷ ("anytuple", short_id 0x002)
    ∷ ("std", short_id 0x0f0)
    ∷ ("empty-tuple", short_id 0x0ff)
    ∷ ("std::uuid", short_id 0x100)
    ∷ ("std::str", short_id 0x101)
    ∷ ("std::bytes", short_id 0x102)
    ∷ ("std::int16", short_id 0x103)
    ∷ ("std::int32", short_id 0x104)
    ∷ ("std::int64", short_id 0x105)
    ∷ ("std::float32", short_id 0x106)
    ∷ ("std::float64", short_id 0x107)
    ∷ ("std::decimal", short_id 0x108)
    ∷ ("std::bool", short_id 0x109)
    ∷ ("std::datetime", short_id 0x10a)
    ∷ ("cal::local_datetime", short_id 0x10b)
    ∷ ("cal::local_date", short_id 0x10c)
    ∷ ("cal::local_time", short_id 0x10d)
    ∷ ("std::duration", short_id 0x10e)
    ∷ ("std::json", short_id 0x10f)
    ∷ ("std::bigint", short_id 0x110)
    ∷ ("cal::relative_duration", short_id 0x111)
    ∷ []

abbrev pub Table : Type 0
Table = List (Bytes × TypeCodec)

-- `register_base_scalar_codec`
unfoldable pub register_base_scalar_codec : String → Table → Result Table
unfolding type_ids lookup put new
register_base_scalar_codec name table = elim (lookup name type_ids) [
  | none ↦ raised (new (builtin "RuntimeError") "cannot find known ID for type ")
  | some tid ↦ elim (lookup tid table) [
    | some c ↦ raised (new (builtin "RuntimeError") "base scalar codec for is already registered")
    | none ↦ ok (put tid (base_codec tid) table)
  ]
]

-- The names in the order in which `register_base_scalar_codecs` registers them.
unfoldable pub base_scalars : List String
base_scalars =
    "std::uuid" ∷ "std::str" ∷ "std::bytes" ∷ "std::int16" ∷ "std::int32" ∷ "std::int64"
    ∷ "std::float32" ∷ "std::float64" ∷ "std::decimal" ∷ "std::bigint" ∷ "std::bool"
    ∷ "std::datetime" ∷ "cal::local_datetime" ∷ "cal::local_date" ∷ "cal::local_time"
    ∷ "std::duration" ∷ "std::json" ∷ "cal::relative_duration" ∷ []

unfoldable pub register_all : List String → Table → Result Table
unfolding register_base_scalar_codec
register_all [] table = ok table
register_all (name ∷ names) table = do
  table' ← register_base_scalar_codec name table
  register_all names table'

-- `register_base_scalar_codecs`
unfoldable pub register_base_scalar_codecs : Result Table
unfolding register_all base_scalars
register_base_scalar_codecs = register_all base_scalars []
