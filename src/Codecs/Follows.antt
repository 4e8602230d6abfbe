-- ===== src/Codecs/Follows.antt =====
-- Code that reads the same bytes as other code wherever that succeeds.
use edgedb_python.Prelude.{
  ◌^◌, ◌<◌, ◌≤◌, arith, length, ℕ, zero, suc, ◌≡◌, refl, ap, ◌∙◌, List, [], ◌∷◌, inl, inr,
}
use edgedb_python.Errors.Raise.{Result, ok, raised, Result-cases}
use edgedb_python.Codecs.{Bytes}
use edgedb_python.Codecs.Read.{Read, ◌>>=◌, pure, lift, times}

-- What is left is no longer than what was there.
abbrev pub Shrinks : {A : Type 0} → Read A → Type 0
Shrinks m = (buf rest : Bytes) (a : _) → m buf ≡ ok (a, rest) → length rest ≤ length buf

-- Where `m` succeeds on a buffer of less than 2 GiB, `n` succeeds and leaves the same bytes.
abbrev pub Follows : {A B : Type 0} → Read A → Read B → Type 0
Follows {B} m n =
    (buf rest : Bytes) (a : _)
    → length buf < 2 ^ 31
    → m buf ≡ ok (a, rest)
    → (b : B) × (n buf ≡ ok (b, rest)) × (length rest ≤ length buf)

module _ {A B : Type 0} where
  -- Code that succeeds has succeeded up to where it goes on.
  pub inversion :
      (m : Read A) (f : A → Read B) (buf rest : Bytes) (b : B)
      → (m >>= f) buf ≡ ok (b, rest)
      → (a : A) × (mid : Bytes) × (m buf ≡ ok (a, mid)) × (f a mid ≡ ok (b, rest))
  inversion m f buf rest b e = elim (Result-cases (m buf)) [
    | inl ((a, mid), fine) ↦ (a, mid, fine, rw (fine, ◌>>=◌) at e)
    | inr (x, bad) ↦ absurd (let e' = rw (bad, ◌>>=◌) at e in cc e')
  ]

  pub and_then :
      (m : Read A) (f : A → Read B) (buf mid : Bytes) (a : A)
      → m buf ≡ ok (a, mid)
      → (m >>= f) buf ≡ f a mid
  and_then m f buf mid a e = rw (e, ◌>>=◌) refl

-- What ends code that reads.
pub finished : {A B : Type 0} (a : A) (b : B) → Follows (pure a) (pure b)
finished a b buf rest c lt e =
    let same : buf ≡ rest = cc e in (b, ap (λ r. ok (b, r)) same, omega (arith, ap length same))

module _ {A B C D : Type 0} where
  pub after :
      (m : Read A) (n : Read B) (f : A → Read C) (g : B → Read D)
      → Follows m n
      → ((a : A) (b : B) → Follows (f a) (g b))
      → Follows (m >>= f) (n >>= g)
  after m n f g first then_ buf rest c lt e =
      let (a, mid, e1, e2) = inversion m f buf rest c e in
      let (b, e3, l1) = first buf mid a lt e1 in
      let (d, e4, l2) = then_ a b mid rest c (omega (arith, l1)) e2 in
      (d, and_then n g buf mid b e3 ∙ e4, omega arith)

module _ {A C D : Type 0} where
  pub same :
      (m : Read A) (f : A → Read C) (g : A → Read D)
      → Shrinks m
      → ((a : A) → Follows (f a) (g a))
      → Follows (m >>= f) (m >>= g)
  same m f g shrinks then_ buf rest c lt e =
      let (a, mid, e1, e2) = inversion m f buf rest c e in
      let l1 = shrinks buf mid a e1 in
      let (d, e3, l2) = then_ a mid rest c (omega (arith, l1)) e2 in
      (d, and_then m g buf mid a e1 ∙ e3, omega arith)

  -- Code that only checks may be left out.
  pub silent :
      (r : Result A) (f : A → Read C) (n : Read D)
      → ((a : A) → Follows (f a) n)
      → Follows (lift r >>= f) n
  silent (ok a) f n then_ buf rest c lt e = then_ a buf rest c lt e
  silent (raised x) f n then_ buf rest c lt e = absurd (cc e)

pub lift_same :
    {B : Type 0} (r : Result B) (buf rest : Bytes) (b : B) → lift r buf ≡ ok (b, rest) → buf ≡ rest
lift_same (ok a) buf rest b e = cc e
lift_same (raised x) buf rest b e = absurd (cc e)

module _ {A B : Type 0} where
  pub repeated : (k : ℕ) (m : Read A) (n : Read B) → Follows m n → Follows (times k m) (times k n)
  unfolding times
  repeated zero m n first = finished [] []
  repeated (suc k) m n first =
      let f : A → Read (List A) = λ a. times k m >>= λ as_. pure (a ∷ as_) in
      let g : B → Read (List B) = λ b. times k n >>= λ bs. pure (b ∷ bs) in
      after m n f g first λ a b.
        let f' : List A → Read (List A) = λ as_. pure (a ∷ as_) in
        let g' : List B → Read (List B) = λ bs. pure (b ∷ bs) in
        after (times k m) (times k n) f' g' (repeated k m n first)
          λ as_ bs. finished (a ∷ as_) (b ∷ bs)

  pub trailed :
      {C : Type 0} (m : Read A) (n : Read B) (c : C) → Follows m n → Follows m (n >>= λ _. pure c)
  trailed m n c first buf rest a lt e =
      let (b, e1, l) = first buf rest a lt e in (c, and_then n (λ _. pure c) buf rest b e1, l)

  pub checked :
      {C : Type 0} (m : Read A) (n : Read B) (f : A → Result C)
      → Follows m n
      → Follows (m >>= λ a. lift (f a)) n
  checked m n f first buf rest b lt e =
      let (a, mid, e1, e2) = inversion m (λ a. lift (f a)) buf rest b e in
      let (c, e3, l) = first buf mid a lt e1 in
      let same = lift_same (f a) mid rest b e2 in
      (c, e3 ∙ ap (λ r. ok (c, r)) same, omega (arith, l, ap length same))

pub itself : {A : Type 0} (m : Read A) → Shrinks m → Follows m m
itself m shrinks buf rest a lt e = (a, e, shrinks buf rest a e)
