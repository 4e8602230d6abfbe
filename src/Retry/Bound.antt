-- ===== src/Retry/Bound.antt =====
-- The loop over a retry object ends, after at most as many attempts as the rules allow.
use mathlib.Core.Path.{subst}
use edgedb_python.Prelude.{
  ℕ, zero, suc, ◌+◌, ◌≤◌, ◌<◌, ◌≡◌, refl, ◌⊎◌, inl, inr, true, false, Option, none, some,
  if◌then◌else◌, Bool-cases, ◌==◌, nat_eq, ◌∙◌, sym, arith,
}
use edgedb_python.Errors.Raise.{Exception, Result, ok, raised, Result-cases}
use edgedb_python.Options.{Options, RetryRule, rule_for}
use edgedb_python.Connection.{Env, BorrowReason}
use edgedb_python.Transaction.{Transaction, Owner}
use edgedb_python.Retry.{
  Retry, init_retry, retry_after, judge, Loop, next, iteration_exit, leave, block, loop, run_body,
}

-- No rule of the options allows more than `n` attempts.
abbrev pub IsBounded : ℕ → Options → Type 0
IsBounded n o = (exc : Exception) (rule : RetryRule) → rule_for o exc ≡ ok rule → rule.attempts ≤ n

-- The retry object after an iteration: as it was, or made ready while attempts are left.
abbrev pub IsNext : ℕ → Retry → Retry → Type 0
IsNext n r r' =
    (r'.options ≡ r.options)
    × (r'.iteration ≡ r.iteration)
    × ((r'.done ≡ r.done) ⊎ (r.iteration < n))

module _ {W : Type 0} (env : Env W) (n : ℕ) where
  judge-IsNext :
      (ex : Option Exception) (r : Retry) → IsBounded n r.options → IsNext n r (judge ex r).1
  unfolding judge retry_after
  judge-IsNext none r b = (refl, refl, inl refl)
  judge-IsNext (some ex) r b = elim (Result-cases (rule_for r.options ex)) [
    | inl (rule, e) ↦ ground (arith, b ex rule e)
    | inr (err, e) ↦ ground arith
  ]

  leave-IsNext :
      (ex : Option Exception) (t : Transaction W) (r : Retry)
      → IsBounded n r.options
      → IsNext n r (leave env ex t r).1.retry
  unfolding leave iteration_exit
  leave-IsNext ex t r b = ground (arith, judge-IsNext ex r b)

  module _ (owner : Owner) (body : ℕ → W → Option Exception × W) where
    run_body-IsNext :
        (k : ℕ) (l : Loop W) (entered : Result (Unit {0}) × Transaction W)
        → IsBounded n l.retry.options
        → IsNext n l.retry (run_body env owner body k l entered).1.retry
    unfolding run_body
    run_body-IsNext k l (raised e, t) b = (refl, refl, inl refl)
    run_body-IsNext k l (ok _, t) b =
        leave-IsNext (body k t.world).0 (record t { world = (body k t.world).1 }) l.retry b

    block-IsNext :
        (k : ℕ) (l : Loop W)
        → IsBounded n l.retry.options
        → IsNext n l.retry (block env owner body k l).1.retry
    unfolding block
    block-IsNext k l b = run_body-IsNext k l _ b

    -- The loop may run: it will stop at once, or an attempt is left.
    abbrev MayRun : Retry → Type 0
    MayRun r = (r.iteration ≤ n) × ((r.done ≡ true) ⊎ (r.iteration < n))

    -- The loop's state once the next iteration is made.
    abbrev advance : Loop W → Loop W
    advance l = record l {
      retry = record l.retry { done = true; iteration = l.retry.iteration + 1 };
      world = if l.retry.next_backoff == 0 then l.world else env.sleep l.retry.next_backoff l.world;
    }

    loop_stop :
        (fuel : ℕ) (l : Loop W)
        → l.retry.done ≡ true
        → loop env owner body (suc fuel) l ≡ some (ok tt, l)
    unfolding loop next
    loop_stop fuel l d = ground arith

    loop_raise :
        (fuel : ℕ) (l : Loop W) (e : Exception)
        → l.retry.done ≡ false
        → (block env owner body l.retry.iteration (advance l)).0 ≡ raised e
        → loop env owner body (suc fuel) l
          ≡ some (raised e, (block env owner body l.retry.iteration (advance l)).1)
    unfolding loop next
    loop_raise fuel l e d h = ground arith

    loop_again :
        (fuel : ℕ) (l : Loop W)
        → l.retry.done ≡ false
        → (block env owner body l.retry.iteration (advance l)).0 ≡ ok tt
        → loop env owner body (suc fuel) l
          ≡ loop env owner body fuel (block env owner body l.retry.iteration (advance l)).1
    unfolding loop next
    loop_again fuel l d h = ground arith

    loop_from :
        (fuel : ℕ) (l : Loop W)
        → IsBounded n l.retry.options
        → MayRun l.retry
        → n < fuel + l.retry.iteration
        → (res : Result (Unit {0}) × Loop W) × (loop env owner body fuel l ≡ some res)
          × (res.1.retry.iteration ≤ n)
    loop_from zero l b m h = absurd (omega arith)
    loop_from (suc fuel) l b m h = elim (Bool-cases l.retry.done) [
      | inl d ↦ ((ok tt, l), loop_stop fuel l d, m.0)
      | inr d ↦
          let (o, i, k) = block-IsNext l.retry.iteration (advance l) b in
          let l' = (block env owner body l.retry.iteration (advance l)).1 in
          elim (Result-cases (block env owner body l.retry.iteration (advance l)).0) [
            | inl (_, e) ↦
                let (res, run, le) =
                  loop_from fuel l' (subst (IsBounded n) (sym o) b) (ground arith) (omega arith) in
                (res, loop_again fuel l d e ∙ run, le)
            | inr (err, e) ↦ ((raised err, l'), loop_raise fuel l err d e, ground arith)
          ]
    ]

-- If no rule allows more than `n` attempts and `n` is positive, a retrying transaction ends: on
-- fuel `n + 1` the loop returns or raises, whatever the server and the body do, and it has made
-- at most `n` iterations.
pub loop_total :
    {W : Type 0} (env : Env W) (n : ℕ) (owner : Owner) (body : ℕ → W → Option Exception × W)
    (options : Options) (borrowed : Option BorrowReason) (w : W)
    → 0 < n
    → IsBounded n options
    → (res : Result (Unit {0}) × Loop W) × (loop env owner body
          (n + 1)
          (record { retry = init_retry options; borrowed = borrowed; world = w })
        ≡ some res)
      × (res.1.retry.iteration ≤ n)
unfolding init_retry
loop_total env n owner body options borrowed w h b =
    loop_from env n owner body (n + 1)
      (record { retry = init_retry options; borrowed = borrowed; world = w }) b (omega arith, inr h)
      (omega arith)
