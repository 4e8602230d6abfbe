-- ===== src/Lru/Kept.antt =====
-- Each operation keeps the items used last.
use mathlib.Core.List.{append_assoc}
use edgedb_python.Prelude.{
  ℕ, suc, ◌≤◌, ◌<◌, ◌≡◌, refl, ap, ◌∙◌, sym, Bool, true, false, ltb, List, [], ◌∷◌, ◌++◌, none,
  some, Eq, if◌then◌else◌, length, length-append, arith, Bool-cases, Option-cases, inl, inr,
}
use edgedb_python.Prelude.Dict.{get as lookup, put, get-put}
use edgedb_python.Lru.{
  LruMapping, without, move_to_end, contains, get, get_item, shrink, set_item, del_item,
}
use edgedb_python.Lru.Items.{
  without-append, without_absent, put_absent, without-put, without-IsDistinct, last-IsDistinct,
  length-without,
}
use edgedb_python.Lru.Recent.{
  deleted, missed, found, remember, IsRecent, touched, inserted, without_end,
}

module _ {K V : Type 0} ⦃keys : Eq K⦄ where
  abbrev pub Kept : Bool → LruMapping K V → List (K × V) → Type 0
  Kept b p r = IsRecent p.maxsize b p.dict r

  -- A new key is put last, and the first one is dropped.
  evicted :
      (k j : K) (v w : V) (m : ℕ) (b : Bool) (d r : List (K × V))
      → lookup k ((j, w) ∷ d) ≡ none
      → suc (length d) ≡ m
      → IsRecent m b ((j, w) ∷ d) r
      → IsRecent m b (d ++ (k, v) ∷ []) (without k r ++ (k, v) ∷ [])
  unfolding lookup
  evicted k j v w m b d r e all i =
      let long = length-append d ((k, v) ∷ []) in
      record {
        gone = without k i.gone ++ (j, w) ∷ [];
        split =
            without_end k v i.gone ((j, w) ∷ d) r i.split
            ∙ ap (λ x. without k i.gone ++ (x ++ (k, v) ∷ [])) (without_absent k ((j, w) ∷ d) e)
            ∙ sym (append_assoc (without k i.gone) ((j, w) ∷ []) (d ++ (k, v) ∷ []));
        fits = omega arith;
        distinct = last-IsDistinct k v d (ground arith) i.distinct.1;
        full = λ none_deleted some_gone. omega arith;
      }

  shrink_small :
      (m : ℕ) (d : List (K × V))
      → length d ≤ m
      → shrink (record { maxsize = m; dict = d }) ≡ record { maxsize = m; dict = d }
  unfolding shrink
  shrink_small m d le = ground arith

  shrink_large :
      (m : ℕ) (x : K × V) (d : List (K × V))
      → m < suc (length d)
      → shrink (record { maxsize = m; dict = x ∷ d }) ≡ record { maxsize = m; dict = d }
  unfolding shrink
  shrink_large m x d lt = ground arith

  shrink_new :
      (k : K) (v : V) (m : ℕ) (b : Bool) (d r : List (K × V))
      → 1 ≤ m
      → lookup k d ≡ none
      → IsRecent m b d r
      → Kept b
          (shrink (record { maxsize = m; dict = d ++ (k, v) ∷ [] }))
          (without k r ++ (k, v) ∷ [])
  shrink_new k v m b [] r size e i =
      rw (shrink_small m ((k, v) ∷ []) (omega arith)) (inserted k v m b [] r e i (omega arith))
  shrink_new k v m b ((j, w) ∷ d) r size e i =
      let long = length-append d ((k, v) ∷ []) in
      let fit = i.fits in
      elim (Bool-cases (ltb (suc (length d)) m)) [
        | inl room ↦
            rw (shrink_small m ((j, w) ∷ (d ++ (k, v) ∷ [])) (ground arith))
              (inserted k v m b ((j, w) ∷ d) r e i (ground arith))
        | inr no_room ↦
            rw (shrink_large m (j, w) (d ++ (k, v) ∷ []) (ground arith))
              (evicted k j v w m b d r e (ground arith) i)
      ]

  moved :
      (k : K) (v : V) (d : List (K × V))
      → lookup k d ≡ some v
      → move_to_end k d ≡ without k d ++ (k, v) ∷ []
  unfolding move_to_end
  moved k v d e = rw (e, move_to_end) refl

  moved_put :
      (k : K) (v : V) (d : List (K × V)) → move_to_end k (put k v d) ≡ without k d ++ (k, v) ∷ []
  moved_put k v d =
      moved k v (put k v d) (ground (arith, get-put k k v d, keys.equal_iff k k))
      ∙ ap (λ x. x ++ (k, v) ∷ []) (without-put k v d)

  contains_of_absent : (k : K) (p : LruMapping K V) → lookup k p.dict ≡ none → contains k p ≡ false
  unfolding contains
  contains_of_absent k p e = rw (e, contains) refl

  contains_of_present :
      (k : K) (w : V) (p : LruMapping K V) → lookup k p.dict ≡ some w → contains k p ≡ true
  unfolding contains
  contains_of_present k w p e = rw (e, contains) refl

  pub set_item-Kept :
      (k : K) (v : V) (b : Bool) (p : LruMapping K V) (r : List (K × V))
      → 1 ≤ p.maxsize
      → Kept b p r
      → Kept b (set_item k v p) (without k r ++ (k, v) ∷ [])
  unfolding set_item
  set_item-Kept k v b p r size i = elim (Option-cases (lookup k p.dict)) [
    | inr (w, e) ↦
        rw (contains_of_present k w p e, set_item)
          (rw (moved_put k v p.dict) (touched k v w p.maxsize b p.dict r e i))
    | inl e ↦
        rw (contains_of_absent k p e, set_item)
          (rw (put_absent k v p.dict e) (shrink_new k v p.maxsize b p.dict r size e i))
  ]

  pub get-Kept :
      (k : K) (default : V) (b : Bool) (p : LruMapping K V) (r : List (K × V))
      → Kept b p r
      → Kept b (get k default p).1 (remember (found k (lookup k p.dict)) r)
  unfolding get
  get-Kept k default b p r i = elim (Option-cases (lookup k p.dict)) [
    | inl e ↦ rw (e, get) i
    | inr (w, e) ↦ rw (e, get) (rw (moved k w p.dict e) (touched k w w p.maxsize b p.dict r e i))
  ]

  pub get_item-Kept :
      (k : K) (b : Bool) (p : LruMapping K V) (r : List (K × V))
      → Kept b p r
      → Kept b (get_item k p).1 (remember (found k (lookup k p.dict)) r)
  unfolding get_item
  get_item-Kept k b p r i = elim (Option-cases (lookup k p.dict)) [
    | inl e ↦ rw (e, get_item) i
    | inr (w, e) ↦
        rw (e, get_item) (rw (moved k w p.dict e) (touched k w w p.maxsize b p.dict r e i))
  ]

  removed :
      (k : K) (m : ℕ) (b : Bool) (d r : List (K × V))
      → IsRecent m b d r
      → IsRecent m true (without k d) (without k r)
  removed k m b d r i =
      let fit = i.fits in
      let fewer = length-without k d in
      record {
        gone = without k i.gone;
        split = ap (without k) i.split ∙ without-append k i.gone d;
        fits = omega arith;
        distinct = without-IsDistinct k d i.distinct;
        full = λ none_deleted. absurd (ground arith);
      }

  weaker : (m : ℕ) (b : Bool) (d r : List (K × V)) → IsRecent m b d r → IsRecent m true d r
  weaker m b d r i = record {
    gone = i.gone;
    split = i.split;
    fits = i.fits;
    distinct = i.distinct;
    full = λ none_deleted. absurd (ground arith);
  }

  pub del_item-Kept :
      (k : K) (b : Bool) (p : LruMapping K V) (r : List (K × V))
      → Kept b p r
      → Kept true (del_item k p).1 (remember (if contains k p then deleted k else missed) r)
  unfolding del_item
  del_item-Kept k b p r i = elim (Bool-cases (contains k p)) [
    | inl there ↦ rw (there, del_item) (removed k p.maxsize b p.dict r i)
    | inr nowhere ↦ rw (nowhere, del_item) (weaker p.maxsize b p.dict r i)
  ]
