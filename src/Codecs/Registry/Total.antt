-- ===== src/Codecs/Registry/Total.antt =====
-- Building codecs from a descriptor comes to an end.
use edgedb_python.Prelude.{
  ◌^◌, ◌<◌, ℕ, zero, suc, ◌≤◌, ◌<◌, ◌≡◌, refl, ap, ◌∙◌, Bool, true, List, [], ◌∷◌, ◌++◌, Option,
  none, some, length, arith, inl, inr, Option-cases,
}
use edgedb_python.Errors.Raise.{Result, ok, raised, Result-cases}
use edgedb_python.Codecs.{Bytes, Wire, IsWire}
use edgedb_python.Codecs.Types.{TypeCodec, ctype}
use edgedb_python.Codecs.Build.{read_head, build}
use edgedb_python.Codecs.Skip.{skip}
use edgedb_python.Codecs.Skipped.{skip-build}
use edgedb_python.Codecs.Registry.{
  Library, CodecsRegistry, names_of, find, skip_known, build_new, build_body, build_descriptor,
  keep, last_codec, build_all, build_codec,
}
use edgedb_python.Codecs.Shrinks.{skip_Shrinks, head_less}

module _ (w : Wire) (v : IsWire w) (lib : Library) (version : ℕ × ℕ) where
  pub skip_known_inversion :
      (t : ℕ) (c : TypeCodec) (spec rest : Bytes) (r : CodecsRegistry) (x : Option TypeCodec)
      → (skip_known w lib version t c spec r).0 ≡ ok (x, rest)
      → (b : Bool) × (skip w version (ctype t) spec ≡ ok (b, rest))
  unfolding skip_known
  skip_known_inversion t c spec rest r x e = elim (Result-cases (skip w version (ctype t) spec)) [
    | inl ((b, mid), fine) ↦
        (b, fine ∙ ap (λ m. ok (b, m)) (let e' = rw (fine, skip_known) at e in cc e'))
    | inr (y, bad) ↦ absurd (let e' = rw (bad, skip_known) at e in cc e')
  ]

  pub build_new_inversion :
      (t : ℕ) (tid : Bytes) (cs : List TypeCodec) (spec rest : Bytes) (r : CodecsRegistry)
      (x : Option TypeCodec)
      → (build_new w lib version t tid cs spec r).0 ≡ ok (x, rest)
      → (c : TypeCodec) × (build w (names_of lib r) version (ctype t) tid cs spec ≡ ok (c, rest))
  unfolding build_new
  build_new_inversion t tid cs spec rest r x e =
      elim (Result-cases (build w (names_of lib r) version (ctype t) tid cs spec)) [
        | inl ((c, mid), fine) ↦
            (c, fine ∙ ap (λ m. ok (c, m)) (let e' = rw (fine, build_new) at e in cc e'))
        | inr (y, bad) ↦ absurd (let e' = rw (bad, build_new) at e in cc e')
      ]

  body_less :
      (t : ℕ) (tid : Bytes) (cs : List TypeCodec) (spec rest : Bytes) (r : CodecsRegistry)
      (x : Option TypeCodec)
      → length spec < 2 ^ 31
      → (build_body w lib version t tid cs spec r).0 ≡ ok (x, rest)
      → length rest ≤ length spec
  unfolding build_body
  body_less t tid cs spec rest r x small e = elim (Option-cases (find tid r).0) [
    | inr (c, known) ↦
        let e' = rw (known, build_body) at e in
        let (b, fine) = skip_known_inversion t c spec rest (find tid r).1 x e' in
        skip_Shrinks w v version (ctype t) spec rest b fine
    | inl unknown_ ↦
        let e' = rw (unknown_, build_body) at e in
        let (c, fine) = build_new_inversion t tid cs spec rest (find tid r).1 x e' in
        skip_Shrinks w v version (ctype t) spec rest true (
          skip-build w v (names_of lib (find tid r).1) version (ctype t) tid cs spec rest c small
            fine)
  ]

  descriptor_less :
      (cs : List TypeCodec) (spec rest : Bytes) (r : CodecsRegistry) (x : Option TypeCodec)
      → length spec < 2 ^ 31
      → (build_descriptor w lib version cs spec r).0 ≡ ok (x, rest)
      → length rest < length spec
  unfolding build_descriptor
  descriptor_less cs spec rest r x small e =
      elim (Result-cases (read_head w (names_of lib r) version spec)) [
        | inl ((h, mid), fine) ↦
            let e' = rw (fine, build_descriptor) at e in
            let less = head_less w v version (names_of lib r) spec mid h fine in
            let more = body_less h.0 h.1 cs mid rest r x (omega (arith, less)) e' in omega arith
        | inr (y, bad) ↦ absurd (let e' = rw (bad, build_descriptor) at e in cc e')
      ]

  build_all_total :
      (fuel : ℕ) (cs : List TypeCodec) (spec : Bytes) (r : CodecsRegistry)
      → length spec < fuel
      → length spec < 2 ^ 31
      → (out : Result TypeCodec × CodecsRegistry) × (build_all w lib version fuel cs spec r
          ≡ some out)
  unfolding build_all
  build_all_total zero cs spec r lt small = absurd (omega arith)
  build_all_total (suc fuel) cs [] r lt small = ((last_codec w lib version cs, r), refl)
  build_all_total (suc fuel) cs (b ∷ spec) r lt small =
      elim (Result-cases (build_descriptor w lib version cs (b ∷ spec) r).0) [
        | inr (y, bad) ↦ (
          (raised y, (build_descriptor w lib version cs (b ∷ spec) r).1),
          rw (bad, build_all) refl,
        )
        | inl ((none, rest), fine) ↦
            let less = descriptor_less cs (b ∷ spec) rest r none small fine in
            let (out, e) =
              build_all_total fuel cs rest (build_descriptor w lib version cs (b ∷ spec) r).1
                (omega arith) (omega arith) in
            (out, rw (fine, build_all) e)
        | inl ((some c, rest), fine) ↦
            let less = descriptor_less cs (b ∷ spec) rest r (some c) small fine in
            let (out, e) =
              build_all_total fuel (cs ++ c ∷ []) rest
                (keep w lib version c (build_descriptor w lib version cs (b ∷ spec) r).1)
                (omega arith) (omega arith) in
            (out, rw (fine, build_all) e)
      ]

  -- Building codecs from less than 2 GiB of bytes, whatever they are, returns a codec or raises.
  pub build_codec_total :
      (spec : Bytes) (r : CodecsRegistry)
      → length spec < 2 ^ 31
      → (out : Result TypeCodec × CodecsRegistry) × (build_codec w lib version spec r ≡ some out)
  unfolding build_codec
  build_codec_total spec r small = build_all_total (suc (length spec)) [] spec r (omega arith) small

  -- Where a type is not known and its codec is built from a buffer of less than 2 GiB, a registry that
  -- knows the type skips the same bytes and gives the codec that it knows, whatever its list of codecs is.
  pub skip_known-build_new :
      (t : ℕ) (tid : Bytes) (cs cs' : List TypeCodec) (spec rest : Bytes) (r r' : CodecsRegistry)
      (x : Option TypeCodec) (c : TypeCodec)
      → length spec < 2 ^ 31
      → (find tid r).0 ≡ none
      → (build_body w lib version t tid cs spec r).0 ≡ ok (x, rest)
      → (find tid r').0 ≡ some c
      → (build_body w lib version t tid cs' spec r').0 ≡ ok (some c, rest)
  unfolding build_body
  skip_known-build_new t tid cs cs' spec rest r r' x c lt new_ e known =
      let e' = rw (new_, build_body) at e in
      let (d, fine) = build_new_inversion t tid cs spec rest (find tid r).1 x e' in
      let skipped =
        skip-build w v (names_of lib (find tid r).1) version (ctype t) tid cs spec rest d lt fine in
      rw (known, build_body) (rw (skipped, skip_known) refl)
