-- ===== src/Tests/Lru.antt =====
-- A mapping of two items.
use edgedb_python.Prelude.Int.{pos}
use edgedb_python.Prelude.{ℕ, ◌-◌, ◌≡◌, refl, false, List, [], ◌∷◌, length, drop, nat_eq}
use edgedb_python.Lru.{LruMapping, init, len, iter}
use edgedb_python.Lru.Recent.{Op, gets, sets, track, any_delete, step}
use edgedb_python.Lru.Kept.{Kept}
use edgedb_python.Lru.Track.{track-IsRecent, dict-track}

abbrev two : LruMapping ℕ ℕ
two = record { maxsize = 2; dict = [] }

-- The second key is dropped, since the first one is used after it.
abbrev uses : List (Op ℕ ℕ)
uses = sets 1 10 ∷ sets 2 20 ∷ gets 1 0 ∷ sets 3 30 ∷ []

abbrev after : LruMapping ℕ ℕ
after = (track uses two []).0

iter_of_after : iter after ≡ 1 ∷ 3 ∷ []
unfolding iter step
iter_of_after = refl

len_of_after : len after ≡ 2
unfolding len step
len_of_after = refl

track-IsRecent_example : Kept (any_delete uses false) (track uses two []).0 (track uses two []).1
unfolding init
track-IsRecent_example = track-IsRecent (pos 2) uses two refl

dict-track_example :
    (track uses two []).0.dict
    ≡ drop (length (track uses two []).1 - (track uses two []).0.maxsize) (track uses two []).1
unfolding init
dict-track_example = dict-track (pos 2) uses two refl refl
