-- ===== src/Codecs/Read.antt =====
-- Code that reads from a buffer: it raises, or gives a value and leaves the rest.
use edgedb_python.Prelude.{ℕ, zero, suc, List, [], ◌∷◌}
use edgedb_python.Errors.Raise.{Result, ok, raised}
use edgedb_python.Codecs.{Bytes, Wire, uint16}

abbrev pub Read : Type 0 → Type 0
Read A = Bytes → Result (A × Bytes)

infixl 5 ◌>>=◌ ◌>>◌
abbrev pub ◌>>=◌ : {A B : Type 0} → Read A → (A → Read B) → Read B
◌>>=◌ m f buf = elim (m buf) [ raised e ↦ raised e | ok (a, rest) ↦ f a rest ]

abbrev pub ◌>>◌ : {A B : Type 0} → Read A → Read B → Read B
m >> k = m >>= λ _. k

abbrev pub pure : {A : Type 0} → A → Read A
pure a buf = ok (a, buf)

-- Code that does not read.
abbrev pub lift : {A : Type 0} → Result A → Read A
lift (ok a) buf = ok (a, buf)
lift (raised e) buf = raised e

-- `for i in range(n)`
unfoldable pub times : {A : Type 0} → ℕ → Read A → Read (List A)
times zero m = pure []
times (suc n) m = do a ← m; as_ ← times n m; pure (a ∷ as_)

module _ (w : Wire) where
  -- `<uint16_t>hton.unpack_int16(frb_read(buf, 2))`
  unfoldable pub read_uint16 : Read ℕ
  unfolding uint16
  read_uint16 = do b ← w.frb_read 2; pure (uint16 (w.unpack_int16 b))

  -- `hton.unpack_uint32(frb_read(buf, 4))`
  unfoldable pub read_uint32 : Read ℕ
  read_uint32 = do b ← w.frb_read 4; pure (w.unpack_uint32 b)
