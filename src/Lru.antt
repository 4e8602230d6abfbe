-- ===== src/Lru.antt =====
-- edgedb/protocol/lru.pyx: the mapping that keeps the statements used last. An `OrderedDict` is its
-- list of items, the one at its beginning first.
pub mod Items
pub mod Recent
pub mod Kept
pub mod Track
use edgedb_python.Prelude.Int.{ℤ, pos, negsuc}
use edgedb_python.Prelude.{
  ℕ, zero, suc, Bool, true, false, ltb, List, [], ◌∷◌, ◌++◌, map, Option, none, some, Eq, ◌==◌,
  if◌then◌else◌, length, drop,
}
use edgedb_python.Prelude.Dict.{get as lookup, put}
use edgedb_python.Errors.Class.{builtin}
use edgedb_python.Errors.Raise.{Result, ok, raised, new}

pub record LruMapping (K V : Type 0) : Type 0 where
  pub maxsize : ℕ
  pub dict : List (K × V)

-- `LRUMapping.__init__`
unfoldable pub init : {K V : Type 0} → ℤ → Result (LruMapping K V)
unfolding new
init (pos (suc n)) = ok (record { maxsize = suc n; dict = [] })
init maxsize = raised (new (builtin "ValueError") "maxsize is expected to be greater than 0")

module _ {K V : Type 0} ⦃keys : Eq K⦄ where
  -- `del d[k]` of a dictionary
  unfoldable pub without : K → List (K × V) → List (K × V)
  without k [] = []
  without k ((j, v) ∷ d) = if j == k then without k d else (j, v) ∷ without k d

  -- `move_to_end(key)` of a key that is there
  unfoldable pub move_to_end : K → List (K × V) → List (K × V)
  unfolding lookup without
  move_to_end k d = elim (lookup k d) [ none ↦ d | some v ↦ without k d ++ (k, v) ∷ [] ]

  -- `__contains__`
  unfoldable pub contains : K → LruMapping K V → Bool
  unfolding lookup
  contains k p = elim (lookup k p.dict) [ none ↦ false | some v ↦ true ]

  -- `__len__`
  unfoldable pub len : LruMapping K V → ℕ
  len p = length p.dict

  -- `__iter__`
  unfoldable pub iter : LruMapping K V → List K
  iter p = map (λ item. item.0) p.dict

  unfoldable pub get : K → V → LruMapping K V → V × LruMapping K V
  unfolding lookup move_to_end
  get k default p = elim (lookup k p.dict) [
    | none ↦ (default, p)
    | some v ↦ (v, record p { dict = move_to_end k p.dict })
  ]

  -- `__getitem__`
  unfoldable pub get_item : K → LruMapping K V → Result V × LruMapping K V
  unfolding lookup move_to_end new
  get_item k p = elim (lookup k p.dict) [
    | none ↦ (raised (new (builtin "KeyError") ""), p)
    | some v ↦ (ok v, record p { dict = move_to_end k p.dict })
  ]

  -- `if len(self._dict) > self._maxsize: self._dict.popitem(last=False)`
  unfoldable pub shrink : LruMapping K V → LruMapping K V
  shrink p = if ltb p.maxsize (length p.dict) then record p { dict = drop 1 p.dict } else p

  -- `__setitem__`
  unfoldable pub set_item : K → V → LruMapping K V → LruMapping K V
  unfolding contains put move_to_end shrink
  set_item k v p =
      if contains k p
      then record p { dict = move_to_end k (put k v p.dict) }
      else shrink (record p { dict = put k v p.dict })

  -- `__delitem__`
  unfoldable pub del_item : K → LruMapping K V → Result (Unit {0}) × LruMapping K V
  unfolding contains without new
  del_item k p =
      if contains k p
      then (ok tt, record p { dict = without k p.dict })
      else (raised (new (builtin "KeyError") ""), p)
