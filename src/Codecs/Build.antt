-- ===== src/Codecs/Build.antt =====
-- edgedb/protocol/codecs/codecs.pyx: how the codec of a type is built from its descriptor.
use edgedb_python.Prelude.{map, ℕ, String, Bool, true, false, nat_eq, List, [], ◌∷◌}
use edgedb_python.Errors.Class.{builtin}
use edgedb_python.Errors.Raise.{ok, raised, new}
use edgedb_python.Codecs.{Bytes, Wire}
use edgedb_python.Codecs.Read.{Read, ◌>>=◌, ◌>>◌, pure, lift, times, read_uint16, read_uint32}
use edgedb_python.Codecs.Types.{
  Ctype, TypeCodec, fields_of, codec_at, derive, has_cardinality, one_dimension, Names, set, shape,
  base_scalar, scalar, tuple, namedtuple, array, enum, set_codec, object_codec, tuple_codec,
  named_tuple_codec, array_codec, enum_codec,
}

module _ (w : Wire) (names : Names) (version : ℕ × ℕ) where
  open w use {unpack_int32, frb_read}
  open names use {utf8, base}

  -- The first byte, and the identifier of the type.
  unfoldable pub read_head : Read (ℕ × Bytes)
  unfolding new
  read_head = do
    t ← frb_read 1
    tid ← frb_read 16
    lift (elim t [ [] ↦ raised (new (builtin "IndexError") "") | b ∷ bs ↦ ok (b, tid) ])

  unfoldable pub read_text : Read String
  unfolding read_uint32
  read_text = do n ← read_uint32 w; b ← frb_read n; lift (utf8 b)

  unfoldable pub read_codec : List TypeCodec → Read TypeCodec
  unfolding read_uint16 codec_at
  read_codec codecs = do pos ← read_uint16 w; lift (codec_at codecs pos)

  -- The flags of an element of a shape, and its cardinality, which is ignored.
  unfoldable pub read_flags : Bool → Read ℕ
  unfolding read_uint32
  read_flags true = do flag ← read_uint32 w; frb_read 1; pure flag
  read_flags false = do b ← frb_read 1; pure (elim b [ [] ↦ 0 | flag ∷ rest ↦ flag ])

  unfoldable pub read_element : List TypeCodec → Read (ℕ × String × TypeCodec)
  unfolding read_flags read_text read_codec has_cardinality
  read_element codecs = do
    flag ← read_flags (has_cardinality version)
    name ← read_text
    c ← read_codec codecs
    pure (flag, name, c)

  unfoldable pub read_named : List TypeCodec → Read (String × TypeCodec)
  unfolding read_text read_codec
  read_named codecs = do name ← read_text; c ← read_codec codecs; pure (name, c)

  unfoldable pub build_set : Bytes → List TypeCodec → Read TypeCodec
  unfolding read_codec
  build_set tid codecs = do c ← read_codec codecs; pure (set_codec tid c)

  unfoldable pub build_shape : Bytes → List TypeCodec → Read TypeCodec
  unfolding read_uint16 times read_element fields_of
  build_shape tid codecs = do
    els ← read_uint16 w
    es ← times els (read_element codecs)
    pure (object_codec tid (map (λ e. e.1) es) (map (λ e. e.0) es) (fields_of (map (λ e. e.2) es)))

  unfoldable pub build_base : Bytes → Read TypeCodec
  build_base tid = lift (base tid)

  unfoldable pub build_scalar : Bytes → List TypeCodec → Read TypeCodec
  unfolding read_codec derive
  build_scalar tid codecs = do c ← read_codec codecs; lift (derive tid c)

  unfoldable pub build_tuple : Bytes → List TypeCodec → Read TypeCodec
  unfolding read_uint16 times read_codec fields_of
  build_tuple tid codecs = do
    els ← read_uint16 w
    cs ← times els (read_codec codecs)
    pure (tuple_codec tid (fields_of cs))

  unfoldable pub build_named_tuple : Bytes → List TypeCodec → Read TypeCodec
  unfolding read_uint16 times read_named fields_of
  build_named_tuple tid codecs = do
    els ← read_uint16 w
    es ← times els (read_named codecs)
    pure (named_tuple_codec tid (map (λ e. e.0) es) (fields_of (map (λ e. e.1) es)))

  unfoldable pub build_enum : Bytes → Read TypeCodec
  unfolding read_uint16 times read_text
  build_enum tid = do
    els ← read_uint16 w
    labels ← times els read_text
    pure (enum_codec tid labels)

  unfoldable pub build_array : Bytes → List TypeCodec → Read TypeCodec
  unfolding read_uint16 one_dimension codec_at
  build_array tid codecs = do
    pos ← read_uint16 w
    els ← read_uint16 w
    lift (one_dimension els)
    len ← frb_read 4
    c ← lift (codec_at codecs pos)
    pure (array_codec tid c (unpack_int32 len))

  -- The second half of `_build_codec`, for a type that is not known.
  unfoldable pub build : Ctype → Bytes → List TypeCodec → Read TypeCodec
  unfolding build_set build_shape build_base build_scalar build_tuple build_named_tuple build_enum
      build_array new
  build set tid codecs = build_set tid codecs
  build shape tid codecs = build_shape tid codecs
  build base_scalar tid codecs = build_base tid
  build scalar tid codecs = build_scalar tid codecs
  build tuple tid codecs = build_tuple tid codecs
  build namedtuple tid codecs = build_named_tuple tid codecs
  build array tid codecs = build_array tid codecs
  build enum tid codecs = build_enum tid
  build _ tid codecs = lift (
      raised (new (builtin "NotImplementedError") "no codec implementation for EdgeDB data class "))
