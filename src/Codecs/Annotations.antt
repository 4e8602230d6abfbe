-- ===== src/Codecs/Annotations.antt =====
-- Which types are annotations: skipping tells so, and building refuses them.
use edgedb_python.Prelude.{ℕ, ◌≡◌, ◌≢◌, refl, Bool, true, List}
use edgedb_python.Errors.Raise.{ok}
use edgedb_python.Codecs.{Bytes, Wire}
use edgedb_python.Codecs.Read.{Read, ◌>>=◌, pure, lift, read_uint16}
use edgedb_python.Codecs.Types.{
  Ctype, set, shape, base_scalar, scalar, tuple, namedtuple, array, enum, annotation, unknown,
  TypeCodec, one_dimension, Names,
}
use edgedb_python.Codecs.Build.{build}
use edgedb_python.Codecs.Skip.{skip_named, skip_element, skip_text, skip_all, skip}
use edgedb_python.Codecs.Follows.{inversion}

module _ (w : Wire) (names : Names) (version : ℕ × ℕ) where
  open w use {frb_read}

  ends_true :
      {A : Type 0} (m : Read A) (buf rest : Bytes) (b : Bool)
      → (m >>= λ _. pure true) buf ≡ ok (b, rest)
      → b ≡ true
  ends_true m buf rest b e =
      let (a, mid, e1, e2) = inversion m (λ _. pure true) buf rest b e in cc e2

  pub skip-true :
      (t : Ctype) (buf rest : Bytes) (b : Bool)
      → t ≢ annotation
      → skip w version t buf ≡ ok (b, rest)
      → b ≡ true
  unfolding skip
  skip-true set buf rest b other e = ends_true (frb_read 2) buf rest b e
  skip-true shape buf rest b other e =
      ends_true (skip_all w version (skip_element w version)) buf rest b e
  skip-true base_scalar buf rest b other e = cc e
  skip-true scalar buf rest b other e = ends_true (frb_read 2) buf rest b e
  skip-true tuple buf rest b other e = ends_true (skip_all w version (frb_read 2)) buf rest b e
  skip-true namedtuple buf rest b other e =
      ends_true (skip_all w version (skip_named w version)) buf rest b e
  skip-true array buf rest b other e =
      let (pos, mid, e1, e2) =
        inversion (frb_read 2)
          (λ _. read_uint16 w >>= λ els.
            lift (one_dimension els) >>= λ _. frb_read 4 >>= λ _. pure true)
          buf rest b e in
      let (els, mid', e3, e4) =
        inversion (read_uint16 w)
          (λ els. lift (one_dimension els) >>= λ _. frb_read 4 >>= λ _. pure true) mid rest b e2 in
      let (one, mid2, e5, e6) =
        inversion (lift (one_dimension els)) (λ _. frb_read 4 >>= λ _. pure true) mid' rest b e4 in
      ends_true (frb_read 4) mid2 rest b e6
  skip-true enum buf rest b other e =
      ends_true (skip_all w version (skip_text w version)) buf rest b e
  skip-true annotation buf rest b other e = absurd (other refl)
  skip-true unknown buf rest b other e = absurd (cc e)

  pub built_type :
      (t : Ctype) (tid : Bytes) (codecs : List TypeCodec) (buf rest : Bytes) (c : TypeCodec)
      → build w names version t tid codecs buf ≡ ok (c, rest)
      → t ≢ annotation
  unfolding build
  built_type annotation tid codecs buf rest c e = absurd (cc e)
  built_type set tid codecs buf rest c e = cc
  built_type shape tid codecs buf rest c e = cc
  built_type base_scalar tid codecs buf rest c e = cc
  built_type scalar tid codecs buf rest c e = cc
  built_type tuple tid codecs buf rest c e = cc
  built_type namedtuple tid codecs buf rest c e = cc
  built_type array tid codecs buf rest c e = cc
  built_type enum tid codecs buf rest c e = cc
  built_type unknown tid codecs buf rest c e = cc
