-- ===== src/Codecs/Skipped.antt =====
-- Skipping the descriptor of a type reads what building its codec reads.
use mathlib.Core.List.{append_assoc}
use edgedb_python.Prelude.{
  ◌<◌, ◌^◌, ◌%◌, ℕ, ◌+◌, ◌≡◌, ap, sym, ◌∙◌, String, Bool, true, false, List, [], ◌∷◌, ◌++◌, map,
  length, length-append, arith,
}
use edgedb_python.Errors.Raise.{ok}
use edgedb_python.Codecs.{Bytes, Wire, IsWire, uint16}
use edgedb_python.Codecs.Read.{Read, ◌>>=◌, pure, lift, times, read_uint16, read_uint32}
use edgedb_python.Codecs.Types.{
  Ctype, set, shape, base_scalar, scalar, tuple, namedtuple, array, enum, annotation, unknown,
  TypeCodec, set_codec, object_codec, tuple_codec, named_tuple_codec, enum_codec, array_codec,
  fields_of, codec_at, derive, has_cardinality, one_dimension, Names,
}
use edgedb_python.Codecs.Build.{
  read_text, read_codec, read_flags, read_element, read_named, build_set, build_shape, build_base,
  build_scalar, build_tuple, build_named_tuple, build_enum, build_array, build,
}
use edgedb_python.Codecs.Skip.{skip_flags, skip_named, skip_element, skip_text, skip_all, skip}
use edgedb_python.Codecs.Shrinks.{stays, read_less, read_Shrinks, uint16_Shrinks, uint32_Shrinks}
use edgedb_python.Codecs.Annotations.{skip-true, built_type}
use edgedb_python.Codecs.Follows.{
  Follows, inversion, and_then, after, same, silent, lift_same, finished, repeated, trailed,
  checked, itself,
}

-- Reading twice reads as much as reading once.
joined :
    (w : Wire) (v : IsWire w) (n m : ℕ) (buf mid rest a b : Bytes)
    → w.frb_read n buf ≡ ok (a, mid)
    → w.frb_read m mid ≡ ok (b, rest)
    → w.frb_read (n + m) buf ≡ ok (a ++ b, rest)
joined w v n m buf mid rest a b e1 e2 =
    let (whole, size) = v.read_back n buf a mid e1 in
    let (part, more) = v.read_back m mid b rest e2 in
    let long = length-append a b in
    let sum : n + m ≡ length (a ++ b) = omega arith in
    rw sum (
      ap (w.frb_read (length (a ++ b)))
        (whole ∙ ap (λ x. a ++ x) part ∙ sym (append_assoc a b rest))
      ∙ v.read_front (a ++ b) rest)

module _ (w : Wire) (v : IsWire w) (names : Names) (version : ℕ × ℕ) where
  open w use {frb_read}

  uint16_Follows : Follows (read_uint16 w) (frb_read 2)
  unfolding read_uint16
  uint16_Follows =
      checked (frb_read 2) (frb_read 2) (λ b. ok (uint16 (w.unpack_int16 b)))
        (itself (frb_read 2) (read_Shrinks w v version 2))

  uint32_Follows : Follows (read_uint32 w) (frb_read 4)
  unfolding read_uint32
  uint32_Follows =
      checked (frb_read 4) (frb_read 4) (λ b. ok (w.unpack_uint32 b))
        (itself (frb_read 4) (read_Shrinks w v version 4))

  codec_Follows :
      (codecs : List TypeCodec) → Follows (read_codec w names version codecs) (frb_read 2)
  unfolding read_codec
  codec_Follows codecs = checked (read_uint16 w) (frb_read 2) (codec_at codecs) uint16_Follows

  text_Follows : Follows (read_text w names version) (skip_text w version)
  unfolding read_text skip_text
  text_Follows =
      same (read_uint32 w) (λ n. frb_read n >>= λ b. lift (names.utf8 b)) frb_read
        (uint32_Shrinks w v version)
        λ n.
          checked (frb_read n) (frb_read n) names.utf8
            (itself (frb_read n) (read_Shrinks w v version n))

  flags_Follows :
      (wide : Bool) → Follows (read_flags w names version wide) (skip_flags w version wide)
  unfolding read_flags skip_flags
  flags_Follows true =
      after (read_uint32 w) (frb_read 4) (λ flag. frb_read 1 >>= λ _. pure flag) (λ _. frb_read 1)
        uint32_Follows
        λ flag _.
          checked (frb_read 1) (frb_read 1) (λ _. ok flag)
            (itself (frb_read 1) (read_Shrinks w v version 1))
  flags_Follows false =
      checked (frb_read 1) (frb_read 1) (λ b. ok (elim b [ [] ↦ 0 | flag ∷ rest ↦ flag ]))
        (itself (frb_read 1) (read_Shrinks w v version 1))

  -- A name and the position after it are skipped at once.
  name_Follows :
      {C : Type 0} (f : String → TypeCodec → C) (codecs : List TypeCodec)
      → Follows
          (read_text w names version >>= λ name.
            read_codec w names version codecs >>= λ c. pure (f name c))
          (skip_named w version)
  unfolding skip_named read_text
  name_Follows f codecs buf rest c lt e =
      let text = λ (n : ℕ). frb_read n >>= λ b. lift (names.utf8 b) in
      let (name, mid, e1, e2) =
        inversion (read_text w names version)
          (λ name. read_codec w names version codecs >>= λ c. pure (f name c)) buf rest c e in
      let (n, start, f1, f2) = inversion (read_uint32 w) text buf mid name e1 in
      let l0 = uint32_Shrinks w v version buf start n f1 in
      let (b, f3, l1) =
        checked (frb_read n) (frb_read n) names.utf8
          (itself (frb_read n) (read_Shrinks w v version n)) start mid name (omega (arith, l0))
          f2 in
      let (d, f4, l2) =
        checked (read_codec w names version codecs) (frb_read 2) (λ c. ok (f name c))
          (codec_Follows codecs) mid rest c (omega (arith, l0, l1)) e2 in
      let small = read_less w v version n start mid b f3 in
      let exact : (n + 2) % 2 ^ 32 ≡ n + 2 = omega (arith, l0, small) in
      (
        b ++ d,
        and_then (read_uint32 w) (λ n. frb_read ((n + 2) % 2 ^ 32)) buf start n f1
            ∙ ap (λ k. frb_read k start) exact
            ∙ joined w v n 2 start mid rest b d f3 f4,
        omega (arith, l0, l1, l2),
      )

  named_Follows :
      (codecs : List TypeCodec) → Follows (read_named w names version codecs) (skip_named w version)
  unfolding read_named
  named_Follows codecs = name_Follows (λ name c. (name, c)) codecs

  element_Follows :
      (codecs : List TypeCodec)
      → Follows (read_element w names version codecs) (skip_element w version)
  unfolding read_element skip_element
  element_Follows codecs =
      after (read_flags w names version (has_cardinality version))
        (skip_flags w version (has_cardinality version))
        (λ flag. read_text w names version >>= λ name.
          read_codec w names version codecs >>= λ c. pure (flag, name, c))
        (λ _. skip_named w version) (flags_Follows (has_cardinality version))
        λ flag _. name_Follows (λ name c. (flag, name, c)) codecs

  -- Building from some elements, and skipping them.
  all_Follows :
      {A : Type 0} (m : Read A) (n : Read Bytes) (f : List A → TypeCodec)
      → Follows m n
      → Follows
          (read_uint16 w >>= λ els. times els m >>= λ as_. pure (f as_))
          (skip_all w version n >>= λ _. pure true)
  unfolding skip_all
  all_Follows m n f first =
      trailed (read_uint16 w >>= λ els. times els m >>= λ as_. pure (f as_))
        (read_uint16 w >>= λ els. times els n >>= λ _. pure tt) true
        (same (read_uint16 w) (λ els. times els m >>= λ as_. pure (f as_))
          (λ els. times els n >>= λ _. pure tt) (uint16_Shrinks w v version)
          λ els.
            after (times els m) (times els n) (λ as_. pure (f as_)) (λ _. pure tt)
              (repeated els m n first) λ as_ _. finished (f as_) tt)

  array_Follows :
      (tid : Bytes) (codecs : List TypeCodec)
      → Follows (build_array w names version tid codecs) (skip w version array)
  unfolding build_array skip
  array_Follows tid codecs =
      after (read_uint16 w) (frb_read 2)
        (λ pos. read_uint16 w >>= λ els. lift (one_dimension els) >>= λ _. frb_read 4 >>= λ len.
          lift (codec_at codecs pos) >>= λ c. pure (array_codec tid c (w.unpack_int32 len)))
        (λ _.
          read_uint16 w >>= λ els. lift (one_dimension els) >>= λ _. frb_read 4 >>= λ _. pure true)
        uint16_Follows
        λ pos _.
          same (read_uint16 w)
            (λ els. lift (one_dimension els) >>= λ _. frb_read 4 >>= λ len.
              lift (codec_at codecs pos) >>= λ c. pure (array_codec tid c (w.unpack_int32 len)))
            (λ els. lift (one_dimension els) >>= λ _. frb_read 4 >>= λ _. pure true)
            (uint16_Shrinks w v version)
            λ els.
              same (lift (one_dimension els))
                (λ _. frb_read 4 >>= λ len.
                  lift (codec_at codecs pos) >>= λ c. pure (array_codec tid c (w.unpack_int32 len)))
                (λ _. frb_read 4 >>= λ _. pure true) (stays (one_dimension els))
                λ _.
                  same (frb_read 4)
                    (λ len. lift (codec_at codecs pos) >>= λ c.
                      pure (array_codec tid c (w.unpack_int32 len)))
                    (λ _. pure true) (read_Shrinks w v version 4)
                    λ len.
                      silent (codec_at codecs pos)
                        (λ c. pure (array_codec tid c (w.unpack_int32 len))) (pure true)
                        λ c. finished (array_codec tid c (w.unpack_int32 len)) true

  build_Follows :
      (t : Ctype) (tid : Bytes) (codecs : List TypeCodec)
      → Follows (build w names version t tid codecs) (skip w version t)
  unfolding build skip build_set build_shape build_base build_scalar build_tuple build_named_tuple
      build_enum
  build_Follows set tid codecs =
      trailed (read_codec w names version codecs >>= λ c. pure (set_codec tid c)) (frb_read 2) true
        (checked (read_codec w names version codecs) (frb_read 2) (λ c. ok (set_codec tid c))
          (codec_Follows codecs))
  build_Follows shape tid codecs =
      all_Follows (read_element w names version codecs) (skip_element w version)
        (λ es.
          object_codec tid (map (λ e. e.1) es) (map (λ e. e.0) es) (fields_of (map (λ e. e.2) es)))
        (element_Follows codecs)
  build_Follows base_scalar tid codecs = λ buf rest c lt e.
      let same = lift_same (names.base tid) buf rest c e in
      (true, ap (λ r. ok (true, r)) same, omega (arith, ap length same))
  build_Follows scalar tid codecs =
      trailed (read_codec w names version codecs >>= λ c. lift (derive tid c)) (frb_read 2) true (
        checked (read_codec w names version codecs) (frb_read 2) (derive tid)
          (codec_Follows codecs))
  build_Follows tuple tid codecs =
      all_Follows (read_codec w names version codecs) (frb_read 2)
        (λ cs. tuple_codec tid (fields_of cs)) (codec_Follows codecs)
  build_Follows namedtuple tid codecs =
      all_Follows (read_named w names version codecs) (skip_named w version)
        (λ es. named_tuple_codec tid (map (λ e. e.0) es) (fields_of (map (λ e. e.1) es)))
        (named_Follows codecs)
  build_Follows array tid codecs = array_Follows tid codecs
  build_Follows enum tid codecs =
      all_Follows (read_text w names version) (skip_text w version)
        (λ labels. enum_codec tid labels) text_Follows
  build_Follows annotation tid codecs = λ buf rest c lt e. absurd (cc e)
  build_Follows unknown tid codecs = λ buf rest c lt e. absurd (cc e)

  -- Where building the codec of a type from a buffer of less than 2 GiB succeeds, skipping the same descriptor succeeds, leaves the
  -- same bytes, and takes it for no annotation.
  pub skip-build :
      (t : Ctype) (tid : Bytes) (codecs : List TypeCodec) (buf rest : Bytes) (c : TypeCodec)
      → length buf < 2 ^ 31
      → build w names version t tid codecs buf ≡ ok (c, rest)
      → skip w version t buf ≡ ok (true, rest)
  skip-build t tid codecs buf rest c lt e =
      let (b, skipped, less) = build_Follows t tid codecs buf rest c lt e in
      let real =
        skip-true w names version t buf rest b
          (built_type w names version t tid codecs buf rest c e) skipped in
      skipped ∙ ap (λ x. ok (x, rest)) real
