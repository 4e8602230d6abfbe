-- ===== src/Codecs/Shrinks.antt =====
-- Reading never makes a buffer longer.
use edgedb_python.Prelude.{
  ◌^◌, ◌%◌, ℕ, zero, suc, ◌+◌, ◌<◌, ◌≡◌, ap, Bool, true, false, List, ◌∷◌, length, length-append,
  arith,
}
use edgedb_python.Errors.Raise.{Result, ok, raised}
use edgedb_python.Codecs.{Bytes, Wire, IsWire, uint16}
use edgedb_python.Codecs.Read.{Read, ◌>>=◌, pure, lift, times, read_uint16, read_uint32}
use edgedb_python.Codecs.Types.{
  Ctype, set, shape, base_scalar, scalar, tuple, namedtuple, array, enum, annotation, unknown,
  one_dimension, has_cardinality, Names,
}
use edgedb_python.Codecs.Build.{read_head}
use edgedb_python.Codecs.Skip.{skip_flags, skip_named, skip_element, skip_text, skip_all, skip}
use edgedb_python.Codecs.Follows.{Shrinks, inversion}

module _ {A B : Type 0} where
  pub both :
      (m : Read A) (f : A → Read B) → Shrinks m → ((a : A) → Shrinks (f a)) → Shrinks (m >>= f)
  both m f first then_ buf rest b e =
      let (a, mid, e1, e2) = inversion m f buf rest b e in
      let x = first buf mid a e1 in let y = then_ a mid rest b e2 in omega arith

module _ {A : Type 0} where
  pub stays : (r : Result A) → Shrinks (lift r)
  stays (ok a) buf rest b e = let same : buf ≡ rest = cc e in omega (arith, ap length same)
  stays (raised x) buf rest b e = absurd (cc e)

  pub each : (k : ℕ) (m : Read A) → Shrinks m → Shrinks (times k m)
  unfolding times
  each zero m first = λ buf rest b e. let same : buf ≡ rest = cc e in omega (arith, ap length same)
  each (suc k) m first =
      let f : A → Read (List A) = λ a. times k m >>= λ as_. pure (a ∷ as_) in
      both m f first λ a.
        let g : List A → Read (List A) = λ as_. pure (a ∷ as_) in
        both (times k m) g (each k m first)
          λ as_ buf rest b e. let same : buf ≡ rest = cc e in omega (arith, ap length same)

module _ (w : Wire) (v : IsWire w) (version : ℕ × ℕ) where
  open w use {frb_read}

  pub read_less :
      (n : ℕ) (buf rest a : Bytes) → frb_read n buf ≡ ok (a, rest) → n + length rest ≡ length buf
  read_less n buf rest a e =
      let (whole, size) = v.read_back n buf a rest e in
      omega (arith, ap length whole, length-append a rest)

  pub read_Shrinks : (n : ℕ) → Shrinks (frb_read n)
  read_Shrinks n buf rest a e = omega (arith, read_less n buf rest a e)

  pub uint16_Shrinks : Shrinks (read_uint16 w)
  unfolding read_uint16
  uint16_Shrinks =
      both (frb_read 2) (λ b. pure (uint16 (w.unpack_int16 b))) (read_Shrinks 2)
        λ b. stays (ok (uint16 (w.unpack_int16 b)))

  pub uint32_Shrinks : Shrinks (read_uint32 w)
  unfolding read_uint32
  uint32_Shrinks =
      both (frb_read 4) (λ b. pure (w.unpack_uint32 b)) (read_Shrinks 4)
        λ b. stays (ok (w.unpack_uint32 b))

  pub flags_Shrinks : (wide : Bool) → Shrinks (skip_flags w version wide)
  unfolding skip_flags
  flags_Shrinks true = both (frb_read 4) (λ _. frb_read 1) (read_Shrinks 4) λ _. read_Shrinks 1
  flags_Shrinks false = read_Shrinks 1

  pub named_Shrinks : Shrinks (skip_named w version)
  unfolding skip_named
  named_Shrinks =
      both (read_uint32 w) (λ n. frb_read ((n + 2) % 2 ^ 32)) uint32_Shrinks
        λ n. read_Shrinks ((n + 2) % 2 ^ 32)

  pub text_Shrinks : Shrinks (skip_text w version)
  unfolding skip_text
  text_Shrinks = both (read_uint32 w) frb_read uint32_Shrinks read_Shrinks

  pub element_Shrinks : Shrinks (skip_element w version)
  unfolding skip_element
  element_Shrinks =
      both (skip_flags w version (has_cardinality version)) (λ _. skip_named w version)
        (flags_Shrinks (has_cardinality version)) λ _. named_Shrinks

  pub all_Shrinks : (m : Read Bytes) → Shrinks m → Shrinks (skip_all w version m)
  unfolding skip_all
  all_Shrinks m first =
      both (read_uint16 w) (λ els. times els m >>= λ _. pure tt) uint16_Shrinks
        λ els. both (times els m) (λ _. pure tt) (each els m first) λ _. stays (ok tt)

  pub then_true : {A : Type 0} (m : Read A) (b : Bool) → Shrinks m → Shrinks (m >>= λ _. pure b)
  then_true m b first = both m (λ _. pure b) first λ _. stays (ok b)

  pub skip_Shrinks : (t : Ctype) → Shrinks (skip w version t)
  unfolding skip
  skip_Shrinks set = then_true (frb_read 2) true (read_Shrinks 2)
  skip_Shrinks shape =
      then_true (skip_all w version (skip_element w version)) true
        (all_Shrinks (skip_element w version) element_Shrinks)
  skip_Shrinks base_scalar = stays (ok true)
  skip_Shrinks scalar = then_true (frb_read 2) true (read_Shrinks 2)
  skip_Shrinks tuple =
      then_true (skip_all w version (frb_read 2)) true (all_Shrinks (frb_read 2) (read_Shrinks 2))
  skip_Shrinks namedtuple =
      then_true (skip_all w version (skip_named w version)) true
        (all_Shrinks (skip_named w version) named_Shrinks)
  skip_Shrinks array =
      both (frb_read 2)
        (λ _.
          read_uint16 w >>= λ els. lift (one_dimension els) >>= λ _. frb_read 4 >>= λ _. pure true)
        (read_Shrinks 2)
        λ _.
          both (read_uint16 w)
            (λ els. lift (one_dimension els) >>= λ _. frb_read 4 >>= λ _. pure true) uint16_Shrinks
            λ els.
              both (lift (one_dimension els)) (λ _. frb_read 4 >>= λ _. pure true)
                (stays (one_dimension els)) λ _. then_true (frb_read 4) true (read_Shrinks 4)
  skip_Shrinks enum =
      then_true (skip_all w version (skip_text w version)) true
        (all_Shrinks (skip_text w version) text_Shrinks)
  skip_Shrinks annotation = then_true (skip_text w version) false text_Shrinks
  skip_Shrinks unknown = stays (raised _)

  -- The first 17 bytes.
  pub head_less :
      (names : Names) (buf rest : Bytes) (h : ℕ × Bytes)
      → read_head w names version buf ≡ ok (h, rest)
      → length rest < length buf
  unfolding read_head
  head_less names buf rest h e =
      let (t, mid, e1, e2) = inversion (frb_read 1) _ buf rest h e in
      let (tid, mid', e3, e4) = inversion (frb_read 16) _ mid rest h e2 in
      let x = read_less 1 buf mid t e1 in
      let y = read_less 16 mid mid' tid e3 in let z = stays _ mid' rest h e4 in omega arith
