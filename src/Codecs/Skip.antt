-- ===== src/Codecs/Skip.antt =====
-- edgedb/protocol/codecs/codecs.pyx: how the descriptor of a known type is skipped.
use edgedb_python.Prelude.{◌^◌, ◌%◌, ℕ, ◌+◌, Bool, true, false, nat_eq}
use edgedb_python.Errors.Class.{builtin}
use edgedb_python.Errors.Raise.{raised, new}
use edgedb_python.Codecs.{Bytes, Wire}
use edgedb_python.Codecs.Read.{Read, ◌>>=◌, ◌>>◌, pure, lift, times, read_uint16, read_uint32}
use edgedb_python.Codecs.Types.{
  Ctype, has_cardinality, one_dimension, set, shape, base_scalar, scalar, tuple, namedtuple, array,
  enum, annotation, unknown,
}

module _ (w : Wire) (version : ℕ × ℕ) where
  open w use {frb_read}

  -- An element of a shape: its flags, its name and the position of its codec.
  unfoldable pub skip_flags : Bool → Read Bytes
  skip_flags true = do frb_read 4; frb_read 1
  skip_flags false = frb_read 1

  unfoldable pub skip_named : Read Bytes
  unfolding read_uint32
  skip_named = do str_len ← read_uint32 w; frb_read ((str_len + 2) % 2 ^ 32)

  unfoldable pub skip_element : Read Bytes
  unfolding skip_flags skip_named has_cardinality
  skip_element = do skip_flags (has_cardinality version); skip_named

  unfoldable pub skip_text : Read Bytes
  unfolding read_uint32
  skip_text = do str_len ← read_uint32 w; frb_read str_len

  unfoldable pub skip_all : Read Bytes → Read (Unit {0})
  unfolding read_uint16 times
  skip_all element = do els ← read_uint16 w; times els element; pure tt

  -- The first half of `_build_codec`, for a type that is known: whether it is no annotation.
  unfoldable pub skip : Ctype → Read Bool
  unfolding skip_all skip_element skip_named skip_text one_dimension new
  skip set = do frb_read 2; pure true
  skip shape = do skip_all skip_element; pure true
  skip base_scalar = pure true
  skip scalar = do frb_read 2; pure true
  skip tuple = do skip_all (frb_read 2); pure true
  skip namedtuple = do skip_all skip_named; pure true
  skip array = do frb_read 2; els ← read_uint16 w; lift (one_dimension els); frb_read 4; pure true
  skip enum = do skip_all skip_text; pure true
  skip annotation = do skip_text; pure false
  skip unknown = lift (
      raised (new (builtin "NotImplementedError") "no codec implementation for EdgeDB data class "))
