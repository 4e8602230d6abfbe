-- ===== src/Pool/Lossless.antt =====
-- Runs that lose no holder.
use edgedb_python.Prelude.{
  ℕ, suc, ap, List-cases, ◌≤◌, ◌≡◌, Bool, true, false, ◌==◌, nat_eq, List, [], ◌∷◌, Option, none,
  some, if◌then◌else◌, arith, length, Option-cases, Bool-cases, ℕ-cases, inl, inr,
}
use edgedb_python.Errors.Raise.{Exception, Result, ok, raised, new}
use edgedb_python.Errors.Client.{interface_error}
use edgedb_python.Pool.{
  Pool, Pending, hook, closing_expired, has, without, put, attach, release_holder, close_connection,
  close_holder,
}
use edgedb_python.Pool.Events.{
  Reply, Call, done, then_call, give_up, check_generation, enter_acquire, got, take, check_init,
  acquire, wake, connect, prepare, begin_release, release, finish_release, resume,
}
use edgedb_python.Pool.Places.{count, count-without, has-cons, close_holder_acquiring}
use edgedb_python.Pool.Runs.{is_none}
use edgedb_python.Pool.Kept.{
  Kept, lent, lent_by, lent_at, busy_on, release_holder-Kept, dropped-Kept, close_connection-Kept,
  close_holder-Kept,
}

length-without : (h : ℕ) (xs : List ℕ) → has h xs ≡ true → suc (length (without h xs)) ≡ length xs
unfolding without has
length-without h [] e = ground arith
length-without h (x ∷ xs) e = ground (arith, length-without h xs)

count_of_has : (h : ℕ) (xs : List ℕ) → has h xs ≡ true → 1 ≤ count h xs
unfolding has
count_of_has h [] e = ground arith
count_of_has h (x ∷ xs) e = ground (arith, count_of_has h xs)

done-Kept : (r : Result (Unit {0}) × Pool) → Kept r.1 → Kept (done r).1
done-Kept (ok a, p) v = v
done-Kept (raised e, p) v = v

give_up-Kept :
    (h : ℕ) (e : Exception) (p : Pool) → has h p.acquiring ≡ true → Kept p → Kept (give_up h e p).1
unfolding give_up put
give_up-Kept h e p m v =
    let full = v.total in
    let fewer = length-without h p.acquiring m in
    record {
      placed = λ k. let here = v.placed k in ground (arith, count-without h k p.acquiring m);
      total = ground arith;
      backed = λ k. let here = v.backed k in ground arith;
    }

-- A holder that is being acquired is not in use.
acquiring_free : (h : ℕ) (p : Pool) → has h p.acquiring ≡ true → Kept p → p.in_use h ≡ false
acquiring_free h p m v = let here = v.placed h in ground (arith, count_of_has h p.acquiring m)

check_generation-Kept :
    (h : ℕ) (p : Pool) → has h p.acquiring ≡ true → Kept p → Kept (check_generation h p).1
unfolding check_generation
check_generation-Kept h p m v = elim (Bool-cases (p.made_in h == p.generation)) [
  | inl current ↦ rw (current, check_generation) v
  | inr old ↦ rw (old, check_generation) (give_up-Kept h _ p m v)
]

enter_acquire-Kept :
    (h : ℕ) (p : Pool) → has h p.acquiring ≡ true → Kept p → Kept (enter_acquire h p).1
unfolding enter_acquire
enter_acquire-Kept h p m v = elim (Option-cases (p.con h)) [
  | inl missing ↦ rw (missing, enter_acquire) v
  | inr (c, has_con) ↦ elim (Bool-cases (p.is_open c)) [
    | inr shut ↦ rw (has_con, enter_acquire) (rw shut (dropped-Kept h p v (acquiring_free h p m v)))
    | inl live ↦ rw (has_con, enter_acquire) (rw live (check_generation-Kept h p m v))
  ]
]

pub connect-Kept :
    (h : ℕ) (o : Option Exception) (p : Pool)
    → has h p.acquiring ≡ true
    → Kept p
    → Kept (connect h o p).1
unfolding connect attach
connect-Kept h (some e) p m v = give_up-Kept h e p m v
connect-Kept h none p m v = record {
  placed = v.placed;
  total = v.total;
  backed = λ k. let here = v.backed k in ground arith;
}

pub prepare-Kept :
    (h : ℕ) (o : Option Exception) (p : Pool)
    → has h p.acquiring ≡ true
    → (elim o [ none ↦ is_none (p.con h) | some e ↦ lent_at p h ]) ≡ false
    → Kept p
    → Kept (prepare h o p).1
unfolding prepare
prepare-Kept h none p m ready v =
    let free = acquiring_free h p m v in
    let full = v.total in
    let fewer = length-without h p.acquiring m in
    let here = v.placed h in
    let some_place = count_of_has h p.acquiring m in
    let more = busy_on p.maxsize h p.in_use in
    record {
      placed = λ k. let there = v.placed k in ground (arith, count-without h k p.acquiring m);
      total = ground arith;
      backed = λ k. let there = v.backed k in ground arith;
    }
prepare-Kept h (some e) p m ready v =
    let same = close_holder_acquiring h p in
    give_up-Kept h e (close_holder h p).1 (ground arith) (close_holder-Kept h p ready v)

got-Kept : (h : ℕ) (rest : List ℕ) (p : Pool) → p.queue ≡ h ∷ rest → Kept p → Kept (got h rest p).1
unfolding got
got-Kept h rest p e v =
    let full = v.total in
    let q : Pool = record p { queue = rest; acquiring = h ∷ p.acquiring } in
    enter_acquire-Kept h q (has-cons h p.acquiring) (record {
      placed = λ k. let here = v.placed k in ground (arith, ap (count k) e);
      total = omega (arith, ap length e);
      backed = v.backed;
    })

take-Kept : (p : Pool) → Kept p → Kept (take p).1
unfolding take
take-Kept p v = elim (List-cases p.queue) [
  | inl e ↦ rw (e, take) v
  | inr (h, rest, e) ↦ rw (e, take) (got-Kept h rest p e v)
]

pub cond-Kept :
    (b : Bool) (r s : Result Reply × Pool) → Kept r.1 → Kept s.1 → Kept (if b then r else s).1
cond-Kept true r s v w = v
cond-Kept false r s v w = w

pub then_call-Kept :
    (o : Result (Unit {0})) (k : Call) (p : Pool) → Kept p → Kept (k p).1 → Kept (then_call o k p).1
then_call-Kept (raised e) k p v w = v
then_call-Kept (ok a) k p v w = w

pub acquire-Kept : (p : Pool) → Kept p → Kept (acquire p).1
unfolding acquire
acquire-Kept p v =
    cond-Kept p.closing (raised (new interface_error "pool is closing"), p)
      (then_call (check_init p) take p) v (then_call-Kept (check_init p) take p v (take-Kept p v))

pub wake-Kept : (p : Pool) → Kept p → Kept (wake p).1
unfolding wake
wake-Kept p v = elim (ℕ-cases p.waiting) [
  | inl nobody ↦ rw (nobody, wake) v
  | inr (n, waits_) ↦ elim (List-cases p.queue) [
    | inl e ↦ rw (waits_, wake) (rw e v)
    | inr (h, rest, e) ↦ rw (waits_, wake) (rw e (got-Kept h rest (record p { waiting = n }) e v))
  ]
]

-- `release` up to its first wait changes only `releasing`.
release_same :
    (c : ℕ) (p : Pool)
    → ((release c p).1.maxsize ≡ p.maxsize)
      × ((release c p).1.queue ≡ p.queue)
      × ((release c p).1.acquiring ≡ p.acquiring)
      × ((release c p).1.in_use ≡ p.in_use)
      × ((release c p).1.con ≡ p.con)
unfolding release begin_release
release_same c p = ground arith

pub release-Kept : (c : ℕ) (p : Pool) → Kept p → Kept (release c p).1
release-Kept c p v = let (m, q, a, u, n) = release_same c p in rw (m, q, a, u, n) v

-- Going on with a waiting `release` meets a borrowed connection.
abbrev pub lent_to : Pool → Pending → Option Exception → Bool
lent_to p (closing_expired c) o = lent_by p c
lent_to p (hook h) none = lent p h
lent_to p (hook h) (some e) = lent_at p h

finish_release-Kept :
    (r : Pending) (o : Option Exception) (p : Pool)
    → lent_to p r o ≡ false
    → Kept p
    → Kept (finish_release r o p).1
unfolding finish_release
finish_release-Kept (closing_expired c) o p idle v =
    done-Kept (close_connection c p) (close_connection-Kept c p idle v)
finish_release-Kept (hook h) none p idle v =
    done-Kept (release_holder h p) (release_holder-Kept h p idle v).0
finish_release-Kept (hook h) (some e) p idle v = elim (Option-cases (p.con h)) [
  | inl missing ↦ rw (missing, finish_release) v
  | inr (c, has_con) ↦ rw (has_con, finish_release) (close_connection-Kept c p (ground arith) v)
]

pub resume-Kept :
    (o : Option Exception) (p : Pool)
    → (elim p.releasing [ [] ↦ false | r ∷ rest ↦ lent_to p r o ]) ≡ false
    → Kept p
    → Kept (resume o p).1
unfolding resume
resume-Kept o p idle v = elim (List-cases p.releasing) [
  | inl nobody ↦ rw (nobody, resume) v
  | inr (r, rest, e) ↦
      rw (e, resume) (finish_release-Kept r o (record p { releasing = rest }) (rw e at idle) v)
]
