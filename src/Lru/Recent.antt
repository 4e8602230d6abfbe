-- ===== src/Lru/Recent.antt =====
-- What the mapping keeps, compared with a record of all uses that is never cut.
use mathlib.Core.List.{append_assoc}
use edgedb_python.Prelude.{
  ℕ, ◌≤◌, ◌<◌, ◌≡◌, ap, ◌∙◌, Bool, true, false, ◌||◌, List, [], ◌∷◌, ◌++◌, Option, none, some, Eq,
  if◌then◌else◌, length, length-append, arith,
}
use edgedb_python.Prelude.Dict.{get as lookup}
use edgedb_python.Lru.{LruMapping, without, contains, get, get_item, set_item, del_item}
use edgedb_python.Lru.Items.{
  without-append, without_absent, lookup-without, IsDistinct, without-IsDistinct, last-IsDistinct,
  length-without, length_of_present,
}

pub data Op (K V : Type 0) : Type 0 where
  gets : K → V → Op K V
  gets_item deletes : K → Op K V
  sets : K → V → Op K V

-- What an operation turned out to be: a key was used and has this value, a key was deleted, or
-- nothing was found.
pub data Use (K V : Type 0) : Type 0 where
  used : K → V → Use K V
  deleted : K → Use K V
  missed : Use K V

module _ {K V : Type 0} ⦃keys : Eq K⦄ where
  unfoldable pub step : Op K V → LruMapping K V → LruMapping K V
  unfolding get get_item set_item del_item
  step (gets k default) p = (get k default p).1
  step (gets_item k) p = (get_item k p).1
  step (deletes k) p = (del_item k p).1
  step (sets k v) p = set_item k v p

  abbrev pub found : K → Option V → Use K V
  found k none = missed
  found k (some v) = used k v

  unfoldable pub observe : Op K V → LruMapping K V → Use K V
  unfolding contains lookup
  observe (gets k default) p = found k (lookup k p.dict)
  observe (gets_item k) p = found k (lookup k p.dict)
  observe (deletes k) p = if contains k p then deleted k else missed
  observe (sets k v) p = used k v

  -- All items that are not deleted, the one used longest ago first.
  abbrev pub remember : Use K V → List (K × V) → List (K × V)
  remember (used k v) r = without k r ++ (k, v) ∷ []
  remember (deleted k) r = without k r
  remember missed r = r

  -- The mapping and all items after some operations.
  abbrev pub track : List (Op K V) → LruMapping K V → List (K × V) → LruMapping K V × List (K × V)
  track [] p r = (p, r)
  track (o ∷ os) p r = track os (step o p) (remember (observe o p) r)

  abbrev pub is_delete : Op K V → Bool
  is_delete (gets k v) = false
  is_delete (gets_item k) = false
  is_delete (deletes k) = true
  is_delete (sets k v) = false

  -- Something is deleted, or `seen` says that something was.
  abbrev pub any_delete : List (Op K V) → Bool → Bool
  any_delete [] seen = seen
  any_delete (o ∷ os) seen = any_delete os (is_delete o || seen)

  -- The mapping has the last items of `r`, at most `maxsize`; no key occurs twice; and if nothing was
  -- deleted, an item is missing only if there are `maxsize`.
  pub record IsRecent (m : ℕ) (deleted : Bool) (d r : List (K × V)) : Type 0 where
    pub gone : List (K × V)
    pub split : r ≡ gone ++ d
    pub fits : length d ≤ m
    pub distinct : IsDistinct d
    pub full : deleted ≡ false → 1 ≤ length gone → length d ≡ m

  pub without_end :
      (k : K) (v : V) (gone d r : List (K × V))
      → r ≡ gone ++ d
      → without k r ++ (k, v) ∷ [] ≡ without k gone ++ (without k d ++ (k, v) ∷ [])
  without_end k v gone d r e =
      rw (e, without-append k gone d) (append_assoc (without k gone) (without k d) ((k, v) ∷ []))

  -- A key that is there is put last.
  pub touched :
      (k : K) (v w : V) (m : ℕ) (b : Bool) (d r : List (K × V))
      → lookup k d ≡ some w
      → IsRecent m b d r
      → IsRecent m b (without k d ++ (k, v) ∷ []) (without k r ++ (k, v) ∷ [])
  touched k v w m b d r e i =
      let same = length_of_present k w d i.distinct e in
      let long = length-append (without k d) ((k, v) ∷ []) in
      let fewer = length-without k i.gone in
      let fit = i.fits in
      record {
        gone = without k i.gone;
        split = without_end k v i.gone d r i.split;
        fits = omega arith;
        distinct =
            last-IsDistinct k v (without k d)
              (ground (arith, lookup-without k k d, keys.equal_iff k k))
              (without-IsDistinct k d i.distinct);
        full = λ none_deleted some_gone. let all = i.full none_deleted (omega arith) in omega arith;
      }

  -- A new key is put last.
  pub inserted :
      (k : K) (v : V) (m : ℕ) (b : Bool) (d r : List (K × V))
      → lookup k d ≡ none
      → IsRecent m b d r
      → length d < m
      → IsRecent m b (d ++ (k, v) ∷ []) (without k r ++ (k, v) ∷ [])
  inserted k v m b d r e i room =
      let long = length-append d ((k, v) ∷ []) in
      let fewer = length-without k i.gone in
      record {
        gone = without k i.gone;
        split =
            without_end k v i.gone d r i.split
            ∙ ap (λ x. without k i.gone ++ (x ++ (k, v) ∷ [])) (without_absent k d e);
        fits = omega arith;
        distinct = last-IsDistinct k v d e i.distinct;
        full = λ none_deleted some_gone. let all = i.full none_deleted (omega arith) in omega arith;
      }
