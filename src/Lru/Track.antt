-- ===== src/Lru/Track.antt =====
-- The mapping after any operations.
use edgedb_python.Prelude.Int.{ℤ, pos, negsuc}
use edgedb_python.Prelude.{
  ℕ, zero, suc, ◌-◌, ◌≤◌, ◌≡◌, refl, sym, Bool, false, ◌||◌, List, [], ◌∷◌, ◌++◌, Eq, length,
  length-append, drop, arith,
}
use edgedb_python.Errors.Raise.{ok}
use edgedb_python.Lru.{LruMapping, init, get, get_item, shrink, set_item, del_item}
use edgedb_python.Lru.Recent.{
  Op, gets, gets_item, deletes, sets, step, observe, remember, track, is_delete, any_delete,
}
use edgedb_python.Lru.Kept.{Kept, get-Kept, get_item-Kept, set_item-Kept, del_item-Kept}

module _ {K V : Type 0} ⦃keys : Eq K⦄ where
  step-Kept :
      (o : Op K V) (b : Bool) (p : LruMapping K V) (r : List (K × V))
      → 1 ≤ p.maxsize
      → Kept b p r
      → Kept (is_delete o || b) (step o p) (remember (observe o p) r)
  unfolding step observe
  step-Kept (gets k v) b p r size i = get-Kept k v b p r i
  step-Kept (gets_item k) b p r size i = get_item-Kept k b p r i
  step-Kept (deletes k) b p r size i = del_item-Kept k b p r i
  step-Kept (sets k v) b p r size i = set_item-Kept k v b p r size i

  maxsize-step : (o : Op K V) (p : LruMapping K V) → (step o p).maxsize ≡ p.maxsize
  unfolding step get get_item del_item set_item shrink
  maxsize-step (gets k v) p = ground arith
  maxsize-step (gets_item k) p = ground arith
  maxsize-step (deletes k) p = ground arith
  maxsize-step (sets k v) p = ground arith

  track-Kept :
      (os : List (Op K V)) (b : Bool) (p : LruMapping K V) (r : List (K × V))
      → 1 ≤ p.maxsize
      → Kept b p r
      → Kept (any_delete os b) (track os p r).0 (track os p r).1
  track-Kept [] b p r size i = i
  track-Kept (o ∷ os) b p r size i =
      let same = maxsize-step o p in
      track-Kept os (is_delete o || b) (step o p) (remember (observe o p) r) (omega arith)
        (step-Kept o b p r size i)

  fresh : (n : ℤ) (p : LruMapping K V) → init n ≡ ok p → (1 ≤ p.maxsize) × (p.dict ≡ [])
  unfolding init
  fresh (pos zero) p e = absurd (cc)
  fresh (pos (suc n)) p e = (ground arith, ground arith)
  fresh (negsuc n) p e = absurd (cc)

  -- After any operations on a new mapping, compared with the record of all uses, from which only
  -- deletes remove items: the mapping has the end of the record, so that every item it has was used
  -- after every item it has lost; it has at most `maxsize` items and no key twice; and if nothing was
  -- deleted, it has lost items only if it has `maxsize` of them.
  pub track-IsRecent :
      (n : ℤ) (os : List (Op K V)) (p : LruMapping K V)
      → init n ≡ ok p
      → Kept (any_delete os false) (track os p []).0 (track os p []).1
  track-IsRecent n os p e =
      let (size, empty) = fresh n p e in
      track-Kept os false p [] size (record {
        gone = [];
        split = sym empty;
        fits = ground arith;
        distinct = rw empty tt;
        full = λ none_deleted some_gone. absurd (omega arith);
      })

  drop-append : (a b : List (K × V)) → drop (length a) (a ++ b) ≡ b
  drop-append [] b = refl
  drop-append (x ∷ a) b = drop-append a b

  end_of :
      (m : ℕ) (gone d r : List (K × V))
      → r ≡ gone ++ d
      → length d ≤ m
      → (1 ≤ length gone → length d ≡ m)
      → d ≡ drop (length r - m) r
  end_of m [] d r e fits full =
      let none_over : length d - m ≡ 0 = omega arith in rw (e, none_over) refl
  end_of m (x ∷ gone) d r e fits full =
      let all = full (omega arith) in
      let long = length-append gone d in
      let over : suc (length (gone ++ d)) - m ≡ suc (length gone) = omega arith in
      rw (e, over) (sym (drop-append gone d))

  -- After operations without a delete, the mapping has exactly the last `maxsize` items of the record
  -- of all uses, or all of them if there are fewer.
  pub dict-track :
      (n : ℤ) (os : List (Op K V)) (p : LruMapping K V)
      → init n ≡ ok p
      → any_delete os false ≡ false
      → (track os p []).0.dict
        ≡ drop (length (track os p []).1 - (track os p []).0.maxsize) (track os p []).1
  dict-track n os p e free =
      let i = track-IsRecent n os p e in
      end_of (track os p []).0.maxsize i.gone (track os p []).0.dict (track os p []).1 i.split
        i.fits (i.full free)
