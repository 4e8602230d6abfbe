-- ===== src/Lru/Items.antt =====
-- Items of dictionaries without a key, and with a key put last.
use edgedb_python.Prelude.{
  suc, ◌≤◌, ◌≡◌, refl, ap, List, [], ◌∷◌, ◌++◌, none, some, Eq, ◌==◌, if◌then◌else◌, length,
  or_else, arith, Bool-cases, inl, inr,
}
use edgedb_python.Prelude.Dict.{get as lookup, put}
use edgedb_python.Lru.{without}

module _ {K V : Type 0} ⦃keys : Eq K⦄ where
  pub without-append :
      (k : K) (c d : List (K × V)) → without k (c ++ d) ≡ without k c ++ without k d
  unfolding without
  without-append k [] d = refl
  without-append k ((j, v) ∷ c) d = elim (Bool-cases (j == k)) [
    | inl e ↦ rw e (without-append k c d)
    | inr e ↦ rw e (ap (λ r. (j, v) ∷ r) (without-append k c d))
  ]

  pub without_absent : (k : K) (d : List (K × V)) → lookup k d ≡ none → without k d ≡ d
  unfolding without lookup
  without_absent k [] a = refl
  without_absent k ((j, v) ∷ d) a = ground (arith, without_absent k d)

  pub put_absent :
      (k : K) (v : V) (d : List (K × V)) → lookup k d ≡ none → put k v d ≡ d ++ (k, v) ∷ []
  unfolding put lookup
  put_absent k v [] a = refl
  put_absent k v ((j, w) ∷ d) a = ground (arith, put_absent k v d)

  pub without-put : (k : K) (v : V) (d : List (K × V)) → without k (put k v d) ≡ without k d
  unfolding without put
  without-put k v [] = ground (arith, keys.equal_iff k k)
  without-put k v ((j, w) ∷ d) = ground (arith, without-put k v d)

  pub lookup-without :
      (k j : K) (d : List (K × V)) → lookup j (without k d) ≡ (if k == j then none else lookup j d)
  unfolding without lookup
  lookup-without k j [] = ground arith
  lookup-without k j ((i, v) ∷ d) =
      ground
        (arith, lookup-without k j d, keys.equal_iff i k, keys.equal_iff i j, keys.equal_iff k j)

  pub lookup-last :
      (k j : K) (v : V) (d : List (K × V))
      → lookup j (d ++ (k, v) ∷ []) ≡ or_else (lookup j d) (if k == j then some v else none)
  unfolding lookup
  lookup-last k j v [] = ground arith
  lookup-last k j v ((i, w) ∷ d) = ground (arith, lookup-last k j v d)

  -- No key occurs twice.
  abbrev pub IsDistinct : List (K × V) → Type 0
  IsDistinct [] = Unit
  IsDistinct ((k, v) ∷ d) = (lookup k d ≡ none) × IsDistinct d

  pub without-IsDistinct : (k : K) (d : List (K × V)) → IsDistinct d → IsDistinct (without k d)
  unfolding without
  without-IsDistinct k [] s = tt
  without-IsDistinct k ((j, v) ∷ d) (a, s) = elim (Bool-cases (j == k)) [
    | inl e ↦ rw e (without-IsDistinct k d s)
    | inr e ↦ rw e ((ground (arith, lookup-without k j d)), without-IsDistinct k d s)
  ]

  pub last-IsDistinct :
      (k : K) (v : V) (d : List (K × V))
      → lookup k d ≡ none
      → IsDistinct d
      → IsDistinct (d ++ (k, v) ∷ [])
  unfolding lookup
  last-IsDistinct k v [] a s = (refl, tt)
  last-IsDistinct k v ((j, w) ∷ d) a (b, s) = (
    ground (arith, lookup-last k j v d, keys.equal_iff j k, keys.equal_iff k j),
    last-IsDistinct k v d (ground arith) s,
  )

  pub length-without : (k : K) (d : List (K × V)) → length (without k d) ≤ length d
  unfolding without
  length-without k [] = omega arith
  length-without k ((j, v) ∷ d) = ground (arith, length-without k d)

  pub length_of_present :
      (k : K) (v : V) (d : List (K × V))
      → IsDistinct d
      → lookup k d ≡ some v
      → suc (length (without k d)) ≡ length d
  unfolding without lookup
  length_of_present k v [] s a = ground arith
  length_of_present k v ((j, w) ∷ d) (b, s) a =
      ground (arith, length_of_present k v d s, without_absent k d, keys.equal_iff j k)
