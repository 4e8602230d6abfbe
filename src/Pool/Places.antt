-- ===== src/Pool/Places.antt =====
-- Where a holder is: in the queue, being acquired, or in use.
use edgedb_python.Prelude.{
  ℕ, zero, suc, ◌+◌, ◌≤◌, ◌≡◌, true, ◌==◌, nat_eq, List, [], ◌∷◌, Option, none, some, if◌then◌else◌,
  arith,
}
use edgedb_python.Errors.Raise.{Exception}
use edgedb_python.Pool.{
  Pool, has, Pending, hook, closing_expired, without, put, detach, attach, release_holder,
  release_on_close, cleanup, close_connection, close_holder,
}
use edgedb_python.Pool.Events.{
  give_up, check_generation, enter_acquire, take, acquire, wake, connect, prepare, begin_release,
  release, finish_release, resume,
}
use edgedb_python.Pool.Closing.{close_each, close_all, terminate, begin_close, end_close}

-- How often `k` stands in a list.
abbrev pub count : ℕ → List ℕ → ℕ
count k [] = 0
count k (x ∷ xs) = (if x == k then 1 else 0) + count k xs

-- The number of places that the holder `k` has.
abbrev pub places : Pool → ℕ → ℕ
places p k = count k p.queue + count k p.acquiring + (if p.in_use k then 1 else 0)

pub count-without :
    (h k : ℕ) (xs : List ℕ)
    → has h xs ≡ true
    → count k (without h xs) + (if h == k then 1 else 0) ≡ count k xs
unfolding without has
count-without h k [] e = ground arith
count-without h k (x ∷ xs) e = ground (arith, count-without h k xs)

pub release_holder-places : (h k : ℕ) (p : Pool) → places (release_holder h p).1 k ≤ places p k
unfolding release_holder detach put
release_holder-places h k p = ground arith

pub release_on_close-places : (h k : ℕ) (p : Pool) → places (release_on_close h p).1 k ≤ places p k
unfolding release_on_close
release_on_close-places h k p = ground (arith, release_holder-places h k p)

pub close_connection-places : (c k : ℕ) (p : Pool) → places (close_connection c p).1 k ≤ places p k
unfolding close_connection cleanup
close_connection-places c k p = grind (arith, release_on_close-places)

pub close_holder-places : (h k : ℕ) (p : Pool) → places (close_holder h p).1 k ≤ places p k
unfolding close_holder
close_holder-places h k p = grind (arith, close_connection-places)

give_up-places :
    (h k : ℕ) (e : Exception) (p : Pool)
    → has h p.acquiring ≡ true
    → places (give_up h e p).1 k ≤ places p k
unfolding give_up put
give_up-places h k e p m = ground (arith, count-without h k p.acquiring m)

check_generation-places :
    (h k : ℕ) (p : Pool) → has h p.acquiring ≡ true → places (check_generation h p).1 k ≤ places p k
unfolding check_generation
check_generation-places h k p m = grind (arith, give_up-places)

-- The holder that is tried stands in `acquiring`.
enter_acquire-places :
    (h k : ℕ) (p : Pool) → has h p.acquiring ≡ true → places (enter_acquire h p).1 k ≤ places p k
unfolding enter_acquire
enter_acquire-places h k p m = ground (arith, check_generation-places h k p m)

pub has-cons : (h : ℕ) (xs : List ℕ) → has h (h ∷ xs) ≡ true
unfolding has
has-cons h xs = ground arith

take-places : (k : ℕ) (p : Pool) → places (take p).1 k ≤ places p k
unfolding take
take-places k p = grind (arith, enter_acquire-places, has-cons)

pub acquire-places : (k : ℕ) (p : Pool) → places (acquire p).1 k ≤ places p k
unfolding acquire
acquire-places k p = ground (arith, take-places k p)

pub wake-places : (k : ℕ) (p : Pool) → places (wake p).1 k ≤ places p k
unfolding wake
wake-places k p = grind (arith, enter_acquire-places, has-cons)

pub connect-places :
    (h k : ℕ) (o : Option Exception) (p : Pool)
    → has h p.acquiring ≡ true
    → places (connect h o p).1 k ≤ places p k
unfolding connect attach
connect-places h k none p m = ground arith
connect-places h k (some e) p m = give_up-places h k e p m

pub close_holder_acquiring : (h : ℕ) (p : Pool) → (close_holder h p).1.acquiring ≡ p.acquiring
unfolding close_holder close_connection cleanup release_on_close release_holder detach put
close_holder_acquiring h p = ground arith

pub prepare-places :
    (h k : ℕ) (o : Option Exception) (p : Pool)
    → has h p.acquiring ≡ true
    → places (prepare h o p).1 k ≤ places p k
unfolding prepare
prepare-places h k none p m = ground (arith, count-without h k p.acquiring m)
prepare-places h k (some e) p m =
    let same = close_holder_acquiring h p in
    let fewer = close_holder-places h k p in
    ground (arith, give_up-places h k e (close_holder h p).1)

pub release-places : (c k : ℕ) (p : Pool) → places (release c p).1 k ≤ places p k
unfolding release begin_release
release-places c k p = ground arith

finish_release-places :
    (r : Pending) (k : ℕ) (o : Option Exception) (p : Pool)
    → places (finish_release r o p).1 k ≤ places p k
unfolding finish_release
finish_release-places (closing_expired c) k o p = ground (arith, close_connection-places c k p)
finish_release-places (hook h) k none p = ground (arith, release_holder-places h k p)
finish_release-places (hook h) k (some e) p = grind (arith, close_connection-places)

pub resume-places : (k : ℕ) (o : Option Exception) (p : Pool) → places (resume o p).1 k ≤ places p k
unfolding resume
resume-places k o p = grind (arith, finish_release-places)

close_each-places : (n k : ℕ) (p : Pool) → places (close_each n p).1 k ≤ places p k
unfolding close_each
close_each-places zero k p = omega arith
close_each-places (suc n) k p =
    let here = close_each-places n k p in ground (arith, close_holder-places n k (close_each n p).1)

close_all-places : (n k : ℕ) (p : Pool) → places (close_all n p).1 k ≤ places p k
unfolding close_all
close_all-places zero k p = omega arith
close_all-places (suc n) k p =
    let here = close_all-places n k p in ground (arith, close_holder-places n k (close_all n p).1)

pub terminate-places : (k : ℕ) (p : Pool) → places (terminate p).1 k ≤ places p k
unfolding terminate
terminate-places k p = ground (arith, close_each-places p.maxsize k p)

pub begin_close-places : (k : ℕ) (p : Pool) → places (begin_close p).1 k ≤ places p k
unfolding begin_close
begin_close-places k p = ground arith

pub end_close-places : (k : ℕ) (p : Pool) → places (end_close p).1 k ≤ places p k
unfolding end_close
end_close-places k p =
    let closed = close_all-places p.maxsize k p in
    ground (arith, terminate-places k (close_all p.maxsize p).1)
