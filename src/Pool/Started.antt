-- ===== src/Pool/Started.antt =====
-- Starting a new pool puts each of its holders into the queue once.
use edgedb_python.Prelude.{
  ℕ, zero, suc, ◌-◌, ap, ◌≤◌, ◌≡◌, refl, true, false, nat_eq, List, [], ◌∷◌, Option, arith, length,
  Option-cases, inl, inr,
}
use edgedb_python.Errors.Raise.{Exception, Result, ok, raised, Result-cases}
use edgedb_python.Pool.{Pool, attach, put}
use edgedb_python.Pool.Events.{done}
use edgedb_python.Pool.Closing.{
  new_pool, fill, connect_first, connect_more, initialize, start_up, start,
}
use edgedb_python.Pool.Places.{count}
use edgedb_python.Pool.Exclusive.{allowed}
use edgedb_python.Pool.Kept.{Kept, busy}

-- The holders below `n`, the last one first.
abbrev pub holders : ℕ → List ℕ
holders zero = []
holders (suc n) = n ∷ holders n

length-holders : (n : ℕ) → length (holders n) ≡ n
length-holders zero = refl
length-holders (suc n) = ap suc (length-holders n)

count-holders : (n k : ℕ) → count k (holders n) ≡ allowed n k
count-holders zero k = ground arith
count-holders (suc n) k = ground (arith, count-holders n k)

busy_nobody : (n : ℕ) → busy n (λ h. false) ≡ 0
busy_nobody zero = refl
busy_nobody (suc n) = omega (arith, busy_nobody n)

fill_all :
    (n : ℕ) (p : Pool)
    → p.queue ≡ []
    → n ≤ p.maxsize
    → fill n p ≡ (ok tt, record p { queue = holders n })
unfolding fill put
fill_all zero p e le = rw e refl
fill_all (suc n) p e le =
    let before = fill_all n p e (omega arith) in
    let room = length-holders n in
    rw (ap (λ r. r.0) before) (rw (ap (λ r. r.1) before) (ground arith))

attach-Kept : (h : ℕ) (p : Pool) → Kept p → Kept (attach h p)
unfolding attach
attach-Kept h p v = record {
  placed = v.placed;
  total = v.total;
  backed = λ k. let here = v.backed k in ground arith;
}

connect_first-Kept :
    (answers : ℕ → Option Exception) (h : ℕ) (p : Pool)
    → Kept p
    → Kept (connect_first answers h p).1
unfolding connect_first
connect_first-Kept answers h p v = elim (Option-cases (answers h)) [
  | inl fine ↦ rw (fine, connect_first) (attach-Kept h p v)
  | inr (e, fails) ↦ rw (fails, connect_first) v
]

connect_more-Kept :
    (answers : ℕ → Option Exception) (n h : ℕ) (p : Pool)
    → Kept p
    → Kept (connect_more answers n h p).1
unfolding connect_more
connect_more-Kept answers zero h p v = v
connect_more-Kept answers (suc n) zero p v = v
connect_more-Kept answers (suc n) (suc h) p v =
    connect_more-Kept answers n h (connect_first answers h p).1 (connect_first-Kept answers h p v)

initialize-Kept :
    (answers : ℕ → Option Exception) (minsize : ℕ) (p : Pool)
    → Kept p
    → Kept (initialize answers minsize p).1
unfolding initialize
initialize-Kept answers zero p v = v
initialize-Kept answers (suc more) p v =
    let first = connect_first-Kept answers (p.maxsize - 1) p v in
    elim (Result-cases (connect_first answers (p.maxsize - 1) p).0) [
      | inr (e, fails) ↦ rw (fails, initialize) first
      | inl (t, fine) ↦
          rw (fine, initialize)
            (connect_more-Kept answers more (p.maxsize - 1)
              (connect_first answers (p.maxsize - 1) p).1 first)
    ]

filled-Kept : (n : ℕ) → Kept (record (new_pool n) { initializing = true; queue = holders n })
unfolding new_pool
filled-Kept n = record {
  placed = λ k. ground (arith, count-holders n k);
  total = omega (arith, length-holders n, busy_nobody n);
  backed = λ h. refl;
}

started-Kept :
    (r : Result (Unit {0}) × Pool)
    → Kept r.1
    → Kept (done (r.0, record r.1 { initializing = false; initialized = true })).1
started-Kept (ok t, p) v = v
started-Kept (raised e, p) v = v

start_up-Kept :
    (answers : ℕ → Option Exception) (minsize : ℕ) (p q : Pool)
    → fill p.maxsize (record p { initializing = true }) ≡ (ok tt, q)
    → Kept q
    → Kept (start_up answers minsize p).1
unfolding start_up
start_up-Kept answers minsize p q filled v =
    rw (ap (λ r. r.0) filled, start_up)
      (rw (ap (λ r. r.1) filled)
        (started-Kept (initialize answers minsize q) (initialize-Kept answers minsize q v)))

pub start-Kept :
    (answers : ℕ → Option Exception) (minsize n : ℕ) → Kept (start answers minsize (new_pool n)).1
unfolding start new_pool
start-Kept answers minsize n =
    let begun : Pool = record (new_pool n) { initializing = true } in
    start_up-Kept answers minsize (new_pool n) (record begun { queue = holders n })
      (fill_all n begun refl (omega arith)) (filled-Kept n)
