-- ===== src/Codecs/Arguments.antt =====
-- edgedb/protocol/protocol.pyx: the arguments of a query, by position or by name.
use edgedb_python.Prelude.{
  ◌≡◌, refl, String, Bool, true, false, not, ◌&&◌, List, [], ◌∷◌, Option, if◌then◌else◌,
}
use edgedb_python.Errors.Class.{builtin}
use edgedb_python.Errors.Client.{query_argument_error}
use edgedb_python.Errors.Raise.{Result, ok, raised, new, require, ◌>>◌}
use edgedb_python.Codecs.{Bytes, Wire, Codec}
use edgedb_python.Codecs.Tuple.{all_arguments, encode}
use edgedb_python.Codecs.Named.{encode_kwargs}

-- The codec of a query's arguments.
pub data Arguments (V : Type 0) : Type 0 where
  null_codec empty_tuple : Arguments V
  tuple : List (Codec V) → Arguments V
  named_tuple : List String → List (Codec V) → Arguments V

unfoldable pub any : {A : Type 0} → List A → Bool
any [] = false
any (x ∷ xs) = true

refuse : Bool → String → Result (Unit {0})
unfolding new
refuse b message = require (not b) (new query_argument_error message)

module _ {V : Type 0} (w : Wire) where
  -- `encode_args` where there are keyword arguments
  unfoldable pub encode_by_name : Arguments V → List (String × Option V) → Result Bytes
  unfolding encode_kwargs new
  encode_by_name (named_tuple names codecs) kwargs = encode_kwargs w names codecs kwargs
  encode_by_name codec kwargs =
      raised (new query_argument_error "expected positional arguments, got named arguments")

  -- `encode_args` where there are none
  unfoldable pub encode_by_position : Arguments V → List (Option V) → Result Bytes
  unfolding encode refuse any new
  encode_by_position (tuple codecs) args = encode w codecs args
  encode_by_position (named_tuple names codecs) args = do
    refuse (any args) "expected named arguments, got positional arguments"
    encode w codecs args
  encode_by_position codec args = do
    refuse (any args) "expected named arguments, got positional arguments"
    raised (new (builtin "NotImplementedError") "")

  unfoldable pub encode_args :
      Arguments V → List (Option V) → List (String × Option V) → Result Bytes
  unfolding encode_by_name encode_by_position refuse any
  encode_args empty_tuple args kwargs = do
    refuse (any args && any kwargs) "either positional or named arguments are supported; not both"
    refuse (any args) "expected no positional arguments"
    refuse (any kwargs) "expected no named arguments"
    ok (0 ∷ 0 ∷ 0 ∷ 4 ∷ 0 ∷ 0 ∷ 0 ∷ 0 ∷ [])
  encode_args codec args kwargs = do
    refuse (any args && any kwargs) "either positional or named arguments are supported; not both"
    if any kwargs then encode_by_name codec kwargs else encode_by_position codec args

  -- A query whose arguments are a tuple, named or not, of scalars, arrays and enums is sent with an
  -- empty tuple if it is called with no arguments, also where it has some.
  no_arguments :
      (names : List String) (codecs : List (Codec V))
      → all_arguments codecs ≡ true
      → (encode_args (tuple codecs) [] [] ≡ encode_args empty_tuple [] [])
        × (encode_args (named_tuple names codecs) [] [] ≡ encode_args empty_tuple [] [])
  unfolding encode_args encode_by_position encode refuse any
  no_arguments names codecs fine = (rw (fine, encode) refl, rw (fine, encode) refl)
