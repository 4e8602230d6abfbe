-- ===== src/Codecs/Registry.antt =====
-- edgedb/protocol/codecs/codecs.pyx: the registry of codecs, which builds them from type descriptors.
pub mod Total
use edgedb_python.Prelude.Int.{ℤ, pos, negsuc}
use edgedb_python.Prelude.{
  ℕ, zero, suc, ◌+◌, ◌≡◌, refl, ◌↔◌, String, Bool, true, false, ◌&&◌, ◌==◌, nat_eq, string_eq, Eq,
  List, [], ◌∷◌, ◌++◌, Option, none, some, if◌then◌else◌, or_else, arith, ◌||◌, length,
}
use edgedb_python.Prelude.Dict.{get as lookup, put}
use edgedb_python.Errors.Class.{builtin}
use edgedb_python.Errors.Raise.{Exception, Result, ok, raised, new, ◌>>=◌, ◌>>◌}
use edgedb_python.Lru
use edgedb_python.Lru.{LruMapping}
use edgedb_python.Codecs.{Bytes, Wire}
use edgedb_python.Codecs.Types.{
  ctype, TypeCodec, null_codec, empty_tuple_codec, override, short_id, tid_of, Names,
}
use edgedb_python.Codecs.Build.{read_head, build}
use edgedb_python.Codecs.Skip.{skip}

unfoldable pub same_bytes : Bytes → Bytes → Bool
same_bytes [] [] = true
same_bytes (a ∷ as_) (b ∷ bs) = a == b && same_bytes as_ bs
same_bytes _ _ = false

pub same_bytes_iff : (a b : Bytes) → (same_bytes a b ≡ true) ↔ (a ≡ b)
unfolding same_bytes
same_bytes_iff [] [] = ground arith
same_bytes_iff [] (b ∷ bs) = ground arith
same_bytes_iff (a ∷ as_) [] = ground arith
same_bytes_iff (a ∷ as_) (b ∷ bs) = ground (arith, same_bytes_iff as_ bs)

instance abbrev pub bytes_eq : Eq Bytes
bytes_eq = record { equal = same_bytes; equal_iff = same_bytes_iff }

-- A cache of codecs; `none` is `None`, which stands for no codec.
abbrev pub Cache : Type 0
Cache = LruMapping Bytes (Option TypeCodec)

pub record CodecsRegistry : Type 0 where
  pub codecs : Cache
  pub codecs_build_cache : Cache
  pub base_codec_overrides : List (Bytes × TypeCodec)

-- `CodecsRegistry.__init__`; the size of the second cache is `_CODECS_BUILD_CACHE_SIZE`.
unfoldable pub init : ℤ → Result CodecsRegistry
unfolding Lru.init
init cache_size = do
  codecs_build_cache ← Lru.init (pos 200)
  codecs ← Lru.init cache_size
  ok (record {
    codecs = codecs;
    codecs_build_cache = codecs_build_cache;
    base_codec_overrides = [];
  })

-- `BASE_SCALAR_CODECS`, and the text of some bytes.
pub record Library : Type 0 where
  pub base_scalar_codecs : List (Bytes × TypeCodec)
  pub utf8 : Bytes → Result String

-- `set_type_codec`; the encoder and the decoder of the override are left out.
unfoldable pub set_type_codec :
    Library → Bytes → String → CodecsRegistry → Result (Unit {0}) × CodecsRegistry
unfolding lookup put new
set_type_codec lib typeid format r =
    if format == "python"
    then elim (lookup typeid lib.base_scalar_codecs) [
      | none ↦
          (raised (new (builtin "ValueError") " does not correspond to any known base type"), r)
      | some basecodec ↦ (
        ok tt,
        record r { base_codec_overrides = put typeid (override typeid) r.base_codec_overrides },
      )
    ]
    else (raised (new (builtin "ValueError") "\"python\" is the only valid format"), r)

-- The codec of a base type, or the one that overrides it.
unfoldable pub base_of : Library → CodecsRegistry → Bytes → Result TypeCodec
unfolding lookup new
base_of lib r tid =
    elim (or_else (lookup tid r.base_codec_overrides) (lookup tid lib.base_scalar_codecs)) [
      | some c ↦ ok c
      | none ↦ raised (new (builtin "KeyError") "")
    ]

abbrev pub names_of : Library → CodecsRegistry → Names
names_of lib r = record { utf8 = lib.utf8; base = base_of lib r }

-- `self.codecs.get(tid, None)`, and then `self.codecs_build_cache.get(tid, None)`
unfoldable pub find : Bytes → CodecsRegistry → Option TypeCodec × CodecsRegistry
unfolding Lru.get
find tid r =
    let (res, codecs) = Lru.get tid none r.codecs in
    elim res [
      | some c ↦ (some c, record r { codecs = codecs })
      | none ↦
          let (res', build_cache) = Lru.get tid none r.codecs_build_cache in
          (res', record r { codecs = codecs; codecs_build_cache = build_cache })
    ]

-- `self.codecs_build_cache[tid] = res`, which an override does not come to.
unfoldable pub cache : Bytes → TypeCodec → CodecsRegistry → CodecsRegistry
unfolding Lru.set_item
cache tid (override tid') r = r
cache tid c r = record r { codecs_build_cache = Lru.set_item tid (some c) r.codecs_build_cache }

abbrev pub Step : Type 0 → Type 0
Step A = Result (A × Bytes) × CodecsRegistry

module _ (w : Wire) (lib : Library) (version : ℕ × ℕ) where
  -- `_build_codec` for a known type; an annotation gives no codec.
  unfoldable pub skip_known : ℕ → TypeCodec → Bytes → CodecsRegistry → Step (Option TypeCodec)
  unfolding skip ctype
  skip_known t c spec r = (
    elim (skip w version (ctype t) spec) [
      | raised e ↦ raised e
      | ok (codec, rest) ↦ ok ((if codec then some c else none), rest)
    ],
    r,
  )

  -- `_build_codec` for a type that is not known
  unfoldable pub build_new :
      ℕ → Bytes → List TypeCodec → Bytes → CodecsRegistry → Step (Option TypeCodec)
  unfolding build ctype cache
  build_new t tid codecs_list spec r =
      elim (build w (names_of lib r) version (ctype t) tid codecs_list spec) [
        | raised e ↦ (raised e, r)
        | ok (c, rest) ↦ (ok (some c, rest), cache tid c r)
      ]

  -- `_build_codec` after the first 17 bytes
  unfoldable pub build_body :
      ℕ → Bytes → List TypeCodec → Bytes → CodecsRegistry → Step (Option TypeCodec)
  unfolding find skip_known build_new
  build_body t tid codecs_list spec r =
      let (res, r') = find tid r in
      elim res [ some c ↦ skip_known t c spec r' | none ↦ build_new t tid codecs_list spec r' ]

  -- `_build_codec`
  unfoldable pub build_descriptor :
      List TypeCodec → Bytes → CodecsRegistry → Step (Option TypeCodec)
  unfolding read_head build_body
  build_descriptor codecs_list spec r = elim (read_head w (names_of lib r) version spec) [
    | raised e ↦ (raised e, r)
    | ok (head, rest) ↦ build_body head.0 head.1 codecs_list rest r
  ]

  -- `self.codecs[res.tid] = res`
  unfoldable pub keep : TypeCodec → CodecsRegistry → CodecsRegistry
  unfolding Lru.set_item tid_of
  keep c r = record r { codecs = Lru.set_item (tid_of c) (some c) r.codecs }

  -- `codecs_list[-1]`
  unfoldable pub last_codec : List TypeCodec → Result TypeCodec
  unfolding new
  last_codec [] = raised (new (builtin "RuntimeError") "cannot not build codec; empty type desc")
  last_codec (c ∷ []) = ok c
  last_codec (c ∷ d ∷ cs) = last_codec (d ∷ cs)

  -- The loop of `build_codec`; `none` means that the fuel ran out.
  unfoldable pub build_all :
      ℕ → List TypeCodec → Bytes → CodecsRegistry → Option (Result TypeCodec × CodecsRegistry)
  unfolding build_descriptor keep last_codec
  build_all zero codecs_list spec r = none
  build_all (suc fuel) codecs_list [] r = some (last_codec codecs_list, r)
  build_all (suc fuel) codecs_list (b ∷ spec) r =
      let (o, r') = build_descriptor codecs_list (b ∷ spec) r in
      elim o [
        | raised e ↦ some (raised e, r')
        | ok (none, rest) ↦ build_all fuel codecs_list rest r'
        | ok (some c, rest) ↦ build_all fuel (codecs_list ++ c ∷ []) rest (keep c r')
      ]

  -- `build_codec`: each round reads 17 bytes or more.
  unfoldable pub build_codec : Bytes → CodecsRegistry → Option (Result TypeCodec × CodecsRegistry)
  unfolding build_all
  build_codec spec r = build_all (suc (length spec)) [] spec r

-- `has_codec`
unfoldable pub has_codec : Bytes → CodecsRegistry → Bool
unfolding Lru.contains short_id
has_codec type_id r =
    Lru.contains type_id r.codecs || (type_id == short_id 0 || type_id == short_id 0xff)

-- `get_codec`
unfoldable pub get_codec : Bytes → CodecsRegistry → Result (Option TypeCodec) × CodecsRegistry
unfolding Lru.get_item short_id new
get_codec type_id r =
    let (o, codecs) = Lru.get_item type_id r.codecs in
    let r' : CodecsRegistry = record r { codecs = codecs } in
    elim o [
      | ok c ↦ (ok c, r')
      | raised e ↦
          if type_id == short_id 0
          then (ok (some null_codec), r')
          else if type_id == short_id 0xff
          then (ok (some empty_tuple_codec), r')
          else (raised (new (builtin "LookupError") ""), r')
    ]
