-- ===== src/Pool/Shut.antt =====
-- Closing a pool while nothing is borrowed loses no holder.
use edgedb_python.Prelude.{
  ℕ, zero, suc, List-cases, ◌≡◌, true, false, nat_eq, none, arith, Option-cases, inl, inr,
}
use edgedb_python.Errors.Raise.{ok, Result-cases}
use edgedb_python.Pool.{
  Pool, put, detach, release_holder, release_on_close, cleanup, close_connection, close_holder,
}
use edgedb_python.Pool.Events.{returned, then_call, check_init}
use edgedb_python.Pool.Closing.{
  close_each, close_all, terminate, close_now, await_used, begin_close, finish, end_close,
}
use edgedb_python.Pool.Kept.{Kept, lent, lent_by, lent_at, close_holder-Kept}
use edgedb_python.Pool.Lossless.{then_call-Kept, cond-Kept}

-- No connection is borrowed.
abbrev pub AllIdle : Pool → Type 0
AllIdle p = (c : ℕ) → p.borrowed_for c ≡ none

close_holder-AllIdle :
    (h c : ℕ) (p : Pool) → p.borrowed_for c ≡ none → (close_holder h p).1.borrowed_for c ≡ none
unfolding close_holder close_connection cleanup release_on_close release_holder detach put
close_holder-AllIdle h c p e = ground arith

lent_of_idle : (h : ℕ) (p : Pool) → AllIdle p → lent p h ≡ false
lent_of_idle h p a = elim (Option-cases (p.con h)) [
  | inl missing ↦ ground arith
  | inr (c, has_con) ↦ let free = a c in ground arith
]

lent_by_of_idle : (c : ℕ) (p : Pool) → AllIdle p → lent_by p c ≡ false
lent_by_of_idle c p a = elim (Option-cases (p.holder c)) [
  | inl nobody ↦ ground arith
  | inr (h, held) ↦ let free = lent_of_idle h p a in ground arith
]

lent_at_of_idle : (h : ℕ) (p : Pool) → AllIdle p → lent_at p h ≡ false
lent_at_of_idle h p a = elim (Option-cases (p.con h)) [
  | inl missing ↦ ground arith
  | inr (c, has_con) ↦ let free = lent_by_of_idle c p a in ground arith
]

close_each-Kept :
    (n : ℕ) (p : Pool) → AllIdle p → Kept p → Kept (close_each n p).1 × AllIdle (close_each n p).1
unfolding close_each
close_each-Kept zero p a v = (v, a)
close_each-Kept (suc n) p a v =
    let (w, b) = close_each-Kept n p a v in
    elim (Result-cases (close_each n p).0) [
      | inr (e, bad) ↦ rw (bad, close_each) (w, b)
      | inl (t, fine) ↦
          rw (fine, close_each)
            (
              close_holder-Kept n (close_each n p).1 (lent_at_of_idle n (close_each n p).1 b) w,
              λ c. close_holder-AllIdle n c (close_each n p).1 (b c),
            )
    ]

close_all-Kept :
    (n : ℕ) (p : Pool) → AllIdle p → Kept p → Kept (close_all n p).1 × AllIdle (close_all n p).1
unfolding close_all
close_all-Kept zero p a v = (v, a)
close_all-Kept (suc n) p a v =
    let (w, b) = close_all-Kept n p a v in
    (
      close_holder-Kept n (close_all n p).1 (lent_at_of_idle n (close_all n p).1 b) w,
      λ c. close_holder-AllIdle n c (close_all n p).1 (b c),
    )

close_now-Kept : (p : Pool) → AllIdle p → Kept p → Kept (close_now p).1
unfolding close_now
close_now-Kept p a v =
    let (shut, b) = close_each-Kept p.maxsize p a v in
    then_call-Kept (close_each p.maxsize p).0 (λ r. (ok returned, record r { closed = true }))
      (close_each p.maxsize p).1 shut shut

pub terminate-Kept : (p : Pool) → AllIdle p → Kept p → Kept (terminate p).1
unfolding terminate
terminate-Kept p a v =
    cond-Kept p.closed (ok returned, p) (then_call (check_init p) close_now p) v
      (then_call-Kept (check_init p) close_now p v (close_now-Kept p a v))

pub begin_close-Kept : (p : Pool) → Kept p → Kept (begin_close p).1
unfolding begin_close await_used
begin_close-Kept p v =
    cond-Kept p.closed (ok returned, p) (then_call (check_init p) await_used p) v
      (then_call-Kept (check_init p) await_used p v v)

pub end_close-Kept : (p : Pool) → AllIdle p → Kept p → Kept (end_close p).1
unfolding end_close finish
end_close-Kept p a v =
    let (w, b) = close_all-Kept p.maxsize p a v in
    elim (List-cases p.awaited) [
      | inr (h, hs, e) ↦ rw (e, end_close) v
      | inl e ↦ elim (Result-cases (close_all p.maxsize p).0) [
        | inl (t, fine) ↦ rw (e, end_close) (rw fine w)
        | inr (x, bad) ↦ rw (e, end_close) (rw bad (terminate-Kept (close_all p.maxsize p).1 b w))
      ]
    ]
