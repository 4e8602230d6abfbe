-- ===== src/Pool/Kept.antt =====
-- When no holder is lost.
use edgedb_python.Prelude.{
  ℕ, zero, suc, ◌+◌, ◌≤◌, ◌<◌, ◌≡◌, refl, Bool, true, false, ◌&&◌, ltb, nat_eq, List, ◌∷◌, Option,
  none, some, if◌then◌else◌, arith, length, Option-cases, Bool-cases, inl, inr,
}
use edgedb_python.Errors.Raise.{ok}
use edgedb_python.Connection.{BorrowReason}
use edgedb_python.Pool.{
  Pool, update, without, put, detach, release_holder, release_on_close, cleanup, close_connection,
  close_holder,
}
use edgedb_python.Pool.Places.{count}
use edgedb_python.Pool.Exclusive.{allowed}
use edgedb_python.Pool.Runs.{is_none}

-- How many holders below `n` are in use.
abbrev pub busy : ℕ → (ℕ → Bool) → ℕ
busy zero f = 0
busy (suc n) f = (if f n then 1 else 0) + busy n f

busy_beyond : (n h : ℕ) (f : ℕ → Bool) (b : Bool) → n ≤ h → busy n (update f h b) ≡ busy n f
busy_beyond zero h f b le = refl
busy_beyond (suc n) h f b le = ground (arith, busy_beyond n h f b)

busy_off :
    (n h : ℕ) (f : ℕ → Bool) → h < n → f h ≡ true → suc (busy n (update f h false)) ≡ busy n f
busy_off zero h f lt e = absurd (omega arith)
busy_off (suc n) h f lt e = ground (arith, busy_off n h f, busy_beyond n h f false)

pub busy_on :
    (n h : ℕ) (f : ℕ → Bool) → h < n → f h ≡ false → busy n (update f h true) ≡ suc (busy n f)
busy_on zero h f lt e = absurd (omega arith)
busy_on (suc n) h f lt e = ground (arith, busy_on n h f, busy_beyond n h f true)

-- Each holder of the pool is at exactly one place, and a holder in use has a connection.
pub record IsKept (maxsize : ℕ) (queue acquiring : List ℕ) (in_use : ℕ → Bool) (con : ℕ → Option ℕ)
    : Type 0 where
  pub placed :
      (k : ℕ) → count k queue + count k acquiring + (if in_use k then 1 else 0) ≡ allowed maxsize k
  pub total : length queue + length acquiring + busy maxsize in_use ≡ maxsize
  pub backed : (h : ℕ) → (in_use h && is_none (con h)) ≡ false

abbrev pub Kept : Pool → Type 0
Kept p = IsKept p.maxsize p.queue p.acquiring p.in_use p.con

abbrev is_lent : Option BorrowReason → Bool
is_lent none = false
is_lent (some reason) = true

-- The connection of the holder `h` is borrowed.
abbrev pub lent : Pool → ℕ → Bool
lent p h = elim (p.con h) [ none ↦ false | some c ↦ is_lent (p.borrowed_for c) ]

-- The holder of the connection `c` has a connection that is borrowed.
abbrev pub lent_by : Pool → ℕ → Bool
lent_by p c = elim (p.holder c) [ none ↦ false | some h ↦ lent p h ]

-- The pool after `_release` of the holder `h` with the connection `c`.
freed : ℕ → ℕ → Pool → Pool
freed h c p = record p {
  in_use = update p.in_use h false;
  awaited = without h p.awaited;
  con = update p.con h (some p.next);
  holder = update (update p.holder c none) p.next (p.holder c);
  borrowed_for = update p.borrowed_for p.next none;
  is_open = update p.is_open p.next (p.is_open c);
  next = suc p.next;
  queue = h ∷ p.queue;
}

release_holder_free : (h : ℕ) (p : Pool) → p.in_use h ≡ false → release_holder h p ≡ (ok tt, p)
unfolding release_holder
release_holder_free h p e = ground arith

release_holder_used :
    (h c : ℕ) (p : Pool)
    → p.in_use h ≡ true
    → p.con h ≡ some c
    → p.borrowed_for c ≡ none
    → ltb (length p.queue) p.maxsize ≡ true
    → release_holder h p ≡ (ok tt, freed h c p)
unfolding release_holder detach put freed
release_holder_used h c p used has_con none_borrows room = ground arith

module _ (p : Pool) (v : Kept p) where
  -- A holder in use is one of the pool, and leaves room in the queue.
  used_fits : (h : ℕ) → p.in_use h ≡ true → h < p.maxsize
  used_fits h used = let here = v.placed h in ground arith

  used_room : (h : ℕ) → p.in_use h ≡ true → ltb (length p.queue) p.maxsize ≡ true
  used_room h used =
      let full = v.total in
      let less = busy_off p.maxsize h p.in_use (used_fits h used) used in ground arith

  freed-Kept : (h c : ℕ) → p.in_use h ≡ true → Kept (freed h c p)
  unfolding freed
  freed-Kept h c used = record {
    placed = λ k. let here = v.placed k in ground arith;
    total =
        let full = v.total in
        let less = busy_off p.maxsize h p.in_use (used_fits h used) used in omega arith;
    backed = λ k. let here = v.backed k in ground arith;
  }

  freed_off : (h c : ℕ) → (freed h c p).in_use h ≡ false
  unfolding freed
  freed_off h c = ground arith

pub release_holder-Kept :
    (h : ℕ) (p : Pool)
    → lent p h ≡ false
    → Kept p
    → Kept (release_holder h p).1
      × ((release_holder h p).0 ≡ ok tt)
      × ((release_holder h p).1.in_use h ≡ false)
release_holder-Kept h p idle v = elim (Bool-cases (p.in_use h)) [
  | inr free ↦ rw (release_holder_free h p free) (v, refl, free)
  | inl used ↦ elim (Option-cases (p.con h)) [
    | inl missing ↦ absurd (let here = v.backed h in ground arith)
    | inr (c, has_con) ↦
        rw (release_holder_used h c p used has_con (ground arith) (used_room p v h used))
          (freed-Kept p v h c used, refl, freed_off p v h c)
  ]
]

-- A holder that is not in use may lose its connection.
pub dropped-Kept :
    (h : ℕ) (p : Pool) → Kept p → p.in_use h ≡ false → Kept (record p { con = update p.con h none })
dropped-Kept h p v free = record {
  placed = v.placed;
  total = v.total;
  backed = λ k. let here = v.backed k in ground arith;
}

release_on_close-Kept :
    (h : ℕ) (p : Pool) → lent p h ≡ false → Kept p → Kept (release_on_close h p).1
unfolding release_on_close
release_on_close-Kept h p idle v =
    let (kept, fine, free) = release_holder-Kept h p idle v in
    rw (fine, release_on_close) (dropped-Kept h (release_holder h p).1 kept free)

cleanup-Kept : (c : ℕ) (p : Pool) → lent_by p c ≡ false → Kept p → Kept (cleanup c p).1
unfolding cleanup
cleanup-Kept c p idle v = elim (Option-cases (p.holder c)) [
  | inl nobody ↦ rw (nobody, cleanup) v
  | inr (h, held) ↦ rw (held, cleanup) (release_on_close-Kept h p (ground arith) v)
]

pub close_connection-Kept :
    (c : ℕ) (p : Pool) → lent_by p c ≡ false → Kept p → Kept (close_connection c p).1
unfolding close_connection
close_connection-Kept c p idle v =
    cleanup-Kept c (record p { is_open = update p.is_open c false }) idle v

-- Closing the connection of the holder `h` meets a borrowed one.
abbrev pub lent_at : Pool → ℕ → Bool
lent_at p h = elim (p.con h) [ none ↦ false | some c ↦ lent_by p c ]

pub close_holder-Kept :
    (h : ℕ) (p : Pool) → lent_at p h ≡ false → Kept p → Kept (close_holder h p).1
unfolding close_holder
close_holder-Kept h p idle v = elim (Option-cases (p.con h)) [
  | inl missing ↦ rw (missing, close_holder) v
  | inr (c, has_con) ↦ rw (has_con, close_holder) (close_connection-Kept c p (ground arith) v)
]
