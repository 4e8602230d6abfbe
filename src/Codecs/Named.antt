-- ===== src/Codecs/Named.antt =====
-- edgedb/protocol/codecs/namedtuple.pyx: arguments that are given by name.
use edgedb_python.Prelude.Int.{pos}
use edgedb_python.Prelude.{
  ◌+◌, ◌^◌, ◌≤◌, ◌<◌, ◌≡◌, refl, String, ◌==◌, nat_eq, string_eq, List, [], ◌∷◌, ◌++◌, Option, none,
  some, length,
}
use edgedb_python.Prelude.Dict.{get}
use edgedb_python.Errors.Class.{builtin}
use edgedb_python.Errors.Client.{query_argument_error}
use edgedb_python.Errors.Raise.{Exception, Result, ok, raised, new, require, ◌>>=◌, ◌>>◌}
use edgedb_python.Codecs.{Bytes, Wire, Codec}
use edgedb_python.Codecs.Array.{encode_item}
use edgedb_python.Codecs.Tuple.{all_arguments, argument_error, encode_fields, encode_record, encode}
use edgedb_python.Codecs.Sent.{small}
use edgedb_python.Codecs.Fields.{equal, positive}

-- `_make_missing_args_error_message`
unfoldable pub missing_args : Exception
unfolding new
missing_args = new query_argument_error "expected "

-- `obj[name]`
unfoldable pub argument : {V : Type 0} → String → List (String × Option V) → Result (Option V)
unfolding get missing_args
argument name args = elim (get name args) [ none ↦ raised missing_args | some arg ↦ ok arg ]

module _ {V : Type 0} (w : Wire) where
  open w use {int32}

  -- The loop of `encode_kwargs`
  unfoldable pub encode_named :
      List String → List (Codec V) → List (String × Option V) → Result Bytes
  unfolding argument encode_item argument_error
  encode_named (name ∷ names) (codec ∷ codecs) args = do
    arg ← argument name args
    b ← encode_item w argument_error codec arg
    bs ← encode_named names codecs args
    ok (int32 (pos 0) ++ (b ++ bs))
  encode_named names codecs args = ok []

  unfoldable pub encode_kwargs :
      List String → List (Codec V) → List (String × Option V) → Result Bytes
  unfolding encode_named all_arguments missing_args new
  encode_kwargs names codecs args = do
    require (all_arguments codecs)
        (new (builtin "TypeError") "argument tuples only support scalars and arrays of scalars")
    require (length args == length codecs) missing_args
    elem_data ← encode_named names codecs args
    ok (int32 (pos (4 + length elem_data)) ++ (int32 (pos (length args)) ++ elem_data))

  -- The arguments give each of these names its element.
  abbrev pub AreNamed : List String → List (String × Option V) → List (Option V) → Type 0
  AreNamed [] args [] = Unit
  AreNamed (name ∷ names) args (item ∷ items) =
      (get name args ≡ some item) × AreNamed names args items
  AreNamed names args items = ⊥

  encode_named-eq :
      (names : List String) (codecs : List (Codec V)) (args : List (String × Option V))
      (items : List (Option V))
      → AreNamed names args items
      → encode_named names codecs args ≡ encode_fields w codecs items
  unfolding encode_named encode_fields argument
  encode_named-eq [] [] args [] a = refl
  encode_named-eq [] (codec ∷ codecs) args [] a = refl
  encode_named-eq [] codecs args (item ∷ items) a = absurd a
  encode_named-eq (name ∷ names) codecs args [] a = absurd a
  encode_named-eq (name ∷ names) [] args (item ∷ items) a = refl
  encode_named-eq (name ∷ names) (codec ∷ codecs) args (item ∷ items) (a, rest) =
      rw (a, argument) (rw (encode_named-eq names codecs args items rest) refl)

  -- Arguments by name are written as the tuple of their values in the order of the type's names is,
  -- errors included: if they give each name its value, and there are as many as elements, at least
  -- one and fewer than 2 ^ 31.
  pub encode_kwargs-eq :
      (names : List String) (codecs : List (Codec V)) (args : List (String × Option V))
      (items : List (Option V))
      → AreNamed names args items
      → length args ≡ length items
      → length items ≡ length codecs
      → 1 ≤ length items
      → length items < 2 ^ 31
      → encode_kwargs names codecs args ≡ encode w codecs items
  unfolding encode_kwargs encode encode_record
  encode_kwargs-eq names codecs args items a same fit filled few =
      rw (encode_named-eq names codecs args items a, encode_kwargs)
        (rw same (
          rw (equal (length items) (length codecs) fit)
            (rw (positive (length items) filled) (rw (small (length items) few) refl))))
