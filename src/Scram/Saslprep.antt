-- ===== src/Scram/Saslprep.antt =====
-- edgedb/scram/saslprep.py on code points. The tables of `stringprep` and the normalisation of
-- `unicodedata` are the parameter `Tables`.
use mathlib.Core.Path.{subst}
use edgedb_python.Prelude.{
  ℕ, ◌≡◌, refl, ◌⊎◌, inl, inr, Bool, true, false, ◌&&◌, ◌||◌, List, [], ◌∷◌, arith, if◌then◌else◌,
  All, All-imp, Bool-cases, or-eq-false,
}
use edgedb_python.Errors.Class.{builtin}
use edgedb_python.Errors.Raise.{Result, ok, raised, new, require, Raises, ◌>>=◌}

pub record Tables : Type 0 where
  pub a1 : ℕ → Bool
  pub b1 : ℕ → Bool
  pub c12 : ℕ → Bool
  pub c21_c22 : ℕ → Bool
  pub c3 : ℕ → Bool
  pub c4 : ℕ → Bool
  pub c5 : ℕ → Bool
  pub c6 : ℕ → Bool
  pub c7 : ℕ → Bool
  pub c8 : ℕ → Bool
  pub c9 : ℕ → Bool
  pub d1 : ℕ → Bool
  pub d2 : ℕ → Bool
  -- `unicodedata.ucd_3_2_0.normalize('NFKC', data)`
  pub normalize : List ℕ → List ℕ

module _ (t : Tables) where
  open t use {a1, b1, c12, c21_c22, c3, c4, c5, c6, c7, c8, c9, d1, d2, normalize}

  -- Some table of `_PROHIBITED` holds the character.
  abbrev pub in_prohibited : ℕ → Bool
  in_prohibited c =
      c12 c || (c21_c22 c || (c3 c || (c4 c || (c5 c || (c6 c || (c7 c || (c8 c || c9 c)))))))

  -- Some table of `prohibited` holds the character: `unassigned` says whether the table A.1 is in,
  -- and `right_to_left` whether the last table is D.2, in place of D.1.
  unfoldable pub is_prohibited : Bool → Bool → ℕ → Bool
  is_prohibited unassigned right_to_left c =
      (in_prohibited c || (unassigned && a1 c)) || (if right_to_left then d2 c else d1 c)

  -- The mapping step.
  unfoldable pub map_step : List ℕ → List ℕ
  map_step [] = []
  map_step (c ∷ cs) =
      let rest = map_step cs in if b1 c then rest else (if c12 c then 32 else c) ∷ rest

  unfoldable pub last : ℕ → List ℕ → ℕ
  last c [] = c
  last c (d ∷ ds) = last d ds

  unfoldable pub check_all : Bool → Bool → List ℕ → Result (Unit {0})
  unfolding is_prohibited new
  check_all u r [] = ok tt
  check_all u r (c ∷ cs) = elim (is_prohibited u r c) [
    | true ↦ raised (new (builtin "ValueError") "SASLprep: failed prohibited character check")
    | false ↦ check_all u r cs
  ]

  -- From the bidirectional check on; `data[0]` of an empty text raises.
  unfoldable pub check_normalized : Bool → List ℕ → Result (List ℕ)
  unfolding last new
  check_normalized u [] = raised (new (builtin "IndexError") "string index out of range")
  check_normalized u (c ∷ cs) =
      if d1 c
      then (require (d1 (last c cs))
            (new (builtin "ValueError") "SASLprep: failed bidirectional check")
          >>= λ _. check_all u true (c ∷ cs) >>= λ _. ok (c ∷ cs))
      else check_all u false (c ∷ cs) >>= λ _. ok (c ∷ cs)

  unfoldable pub saslprep : List ℕ → Bool → Result (List ℕ)
  saslprep [] prohibit_unassigned_code_points = ok []
  saslprep (c ∷ cs) prohibit_unassigned_code_points =
      check_normalized prohibit_unassigned_code_points (normalize (map_step (c ∷ cs)))

  -- RFC 3454, section 6: a text that begins right to left ends so and holds no character of the
  -- other kind, and any other text holds no right-to-left character.
  abbrev pub IsOneDirection : List ℕ → Type 0
  IsOneDirection [] = Unit {0}
  IsOneDirection (c ∷ cs) =
      ((d1 c ≡ true) × (d1 (last c cs) ≡ true) × All (λ x. d2 x ≡ false) (c ∷ cs))
      ⊎ All (λ x. d1 x ≡ false) (c ∷ cs)

  check_all_sound :
      (u r : Bool) (cs : List ℕ)
      → check_all u r cs ≡ ok tt
      → All (λ x. is_prohibited u r x ≡ false) cs
  unfolding check_all new
  check_all_sound u r [] h = tt
  check_all_sound u r (c ∷ cs) h = elim (Bool-cases (is_prohibited u r c)) [
    | inl e ↦ absurd (ground arith)
    | inr e ↦ (e, check_all_sound u r cs (ground arith))
  ]

  parts_of_prohibited :
      (u r : Bool) (x : ℕ)
      → is_prohibited u r x ≡ false
      → (in_prohibited x ≡ false) × ((u && a1 x) ≡ false) × ((if r then d2 x else d1 x) ≡ false)
  unfolding is_prohibited
  parts_of_prohibited u r x h =
      let (front, direction) =
        or-eq-false (in_prohibited x || (u && a1 x)) (if r then d2 x else d1 x) h in
      let (table, unassigned) = or-eq-false (in_prohibited x) (u && a1 x) front in
      (table, unassigned, direction)

  -- The characters are allowed, and the text goes one way.
  abbrev pub IsPrepared : Bool → List ℕ → Type 0
  IsPrepared u out =
      All (λ x. (in_prohibited x ≡ false) × ((u && a1 x) ≡ false)) out × IsOneDirection out

  allowed :
      (u r : Bool) (out : List ℕ)
      → All (λ x. is_prohibited u r x ≡ false) out
      → All (λ x. (in_prohibited x ≡ false) × ((u && a1 x) ≡ false)) out
        × All (λ x. (if r then d2 x else d1 x) ≡ false) out
  allowed u r out h = (
    All-imp _ _ out
        (λ x p. let (table, unassigned, _) = parts_of_prohibited u r x p in (table, unassigned)) h,
    All-imp _ _ out (λ x p. let (_, _, direction) = parts_of_prohibited u r x p in direction) h,
  )

  check_normalized_sound :
      (u : Bool) (data' : List ℕ) {out : List ℕ}
      → check_normalized u data' ≡ ok out
      → (data' ≡ out) × IsPrepared u data'
  unfolding check_normalized new
  check_normalized_sound u [] h = absurd (ground arith)
  check_normalized_sound u (c ∷ cs) h = elim (Bool-cases (d1 c)) [
    | inl right ↦
        let (front, direction) =
          allowed u true (c ∷ cs) (check_all_sound u true (c ∷ cs) (ground arith)) in
        (ground arith, (front, inl (right, ground arith, direction)))
    | inr left ↦
        let (front, direction) =
          allowed u false (c ∷ cs) (check_all_sound u false (c ∷ cs) (ground arith)) in
        (ground arith, (front, inr direction))
  ]

  -- What `saslprep` returns holds no prohibited character, nor an unassigned one if those are
  -- prohibited, and passes the bidirectional rule.
  pub saslprep_sound :
      (data' : List ℕ) (u : Bool) {out : List ℕ} → saslprep data' u ≡ ok out → IsPrepared u out
  unfolding saslprep
  saslprep_sound [] u {out} h = let e : [] ≡ out = ground arith in subst (IsPrepared u) e (tt, tt)
  saslprep_sound (c ∷ cs) u h =
      let (e, p) = check_normalized_sound u (normalize (map_step (c ∷ cs))) h in
      subst (IsPrepared u) e p

  map_step_nothing : (cs : List ℕ) → All (λ x. b1 x ≡ true) cs → map_step cs ≡ []
  unfolding map_step
  map_step_nothing [] h = refl
  map_step_nothing (c ∷ cs) h = ground (arith, h.0, map_step_nothing cs h.1)

  -- A text that is not empty, but whose characters are all mapped to nothing, raises an IndexError
  -- in place of a ValueError, if the normal form of the empty text is empty.
  saslprep_index_error :
      (c : ℕ) (cs : List ℕ) (u : Bool)
      → normalize [] ≡ []
      → All (λ x. b1 x ≡ true) (c ∷ cs)
      → Raises (builtin "IndexError") (saslprep (c ∷ cs) u)
  unfolding saslprep check_normalized new
  saslprep_index_error c cs u n h = rw (map_step_nothing (c ∷ cs) h, n)
