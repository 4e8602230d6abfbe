-- ===== src/Tests/Registry.antt =====
-- Codecs from type descriptors, and a large number, over buffers that are lists.
use edgedb_python.Prelude.Int.{negsuc}
use edgedb_python.Prelude.{◌≡◌, refl, [], ◌∷◌, ◌++◌, some, arith}
use edgedb_python.Errors.Raise.{Result, ok}
use edgedb_python.Codecs.{Bytes, IsSent}
use edgedb_python.Codecs.Types.{TypeCodec, short_id, base_codec, enum_codec}
use edgedb_python.Codecs.Registry.{CodecsRegistry, Library, build_codec, build_body, find}
use edgedb_python.Codecs.Registry.Total.{build_codec_total, skip_known-build_new}
use edgedb_python.Codecs.Bigint.{bigint_codec, digits}
use edgedb_python.Codecs.Bigint.Sent.{bigint_codec-IsSent}
use edgedb_python.Tests.Codecs.{lists, lists-IsWire, number, signed, take, read, signed16}

abbrev library : Library
library = record {
  base_scalar_codecs = (short_id 0x103, base_codec (short_id 0x103)) ∷ [];
  utf8 = λ b. ok "name";
}

abbrev empty : CodecsRegistry
empty = record {
  codecs = record { maxsize = 1000; dict = [] };
  codecs_build_cache = record { maxsize = 200; dict = [] };
  base_codec_overrides = [];
}

-- `std::int16`, and an array of it
abbrev descriptors : Bytes
descriptors =
    2 ∷ short_id 0x103 ++ 6 ∷ short_id 0x9999 ++ 0 ∷ 0 ∷ 0 ∷ 1 ∷ 255 ∷ 255 ∷ 255 ∷ 255 ∷ []

build_codec_total_example :
    (out : Result TypeCodec × CodecsRegistry) × (build_codec lists library (0, 11) descriptors empty
      ≡ some out)
unfolding short_id
build_codec_total_example =
    build_codec_total lists lists-IsWire library (0, 11) descriptors empty (omega arith)

bigint_codec-IsSent_example : IsSent lists (bigint_codec lists) (negsuc 123456789012)
unfolding digits
bigint_codec-IsSent_example =
    bigint_codec-IsSent lists lists-IsWire (negsuc 123456789012) (omega arith)

abbrev colour : TypeCodec
colour = enum_codec (short_id 0x9999) ("name" ∷ [])

-- The registry knows the enumeration.
abbrev known : CodecsRegistry
known = record empty {
  codecs = record { maxsize = 1000; dict = (short_id 0x9999, some colour) ∷ [] };
}

-- An enumeration with one label, and a byte after it.
abbrev enumeration : Bytes
enumeration = 0 ∷ 1 ∷ 0 ∷ 0 ∷ 0 ∷ 1 ∷ 97 ∷ 42 ∷ []

is_found : (find (short_id 0x9999) known).0 ≡ some colour
unfolding find edgedb_python.Codecs.Registry.same_bytes short_id
is_found = refl

is_built :
    (build_body lists library (0, 11) 7 (short_id 0x9999) [] enumeration empty).0
    ≡ ok (some colour, 42 ∷ [])
unfolding build_body find read take signed16 number signed short_id
is_built = refl

skip_known-build_new_example :
    (build_body lists library (0, 11) 7 (short_id 0x9999) [] enumeration known).0
    ≡ ok (some colour, 42 ∷ [])
unfolding find
skip_known-build_new_example =
    skip_known-build_new lists lists-IsWire library (0, 11) 7 (short_id 0x9999) [] [] enumeration
      (42 ∷ []) empty known (some colour) colour (omega arith) refl is_built is_found
