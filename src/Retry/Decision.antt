-- ===== src/Retry/Decision.antt =====
-- When a retrying transaction tries again.
use edgedb_python.Prelude.{
  leb→le, ◌≡◌, true, false, ◌≤◌, ◌<◌, none, some, arith, refl, Bool-cases, leb, inl, inr, ◌⊎◌,
}
use edgedb_python.Errors.Class.{edgedb_error, is_subclass, has_tag, should_retry}
use edgedb_python.Errors.Raise.{Exception, Result, ok, raised}
use edgedb_python.Options.{RetryRule, rule_for}
use edgedb_python.Connection.{Env}
use edgedb_python.Transaction.{Transaction, exit}
use edgedb_python.Retry.{Retry, retry_after, is_retryable, judge, escapes, iteration_exit, leave}

-- The rollback succeeded, or failed with an EdgeDBError.
abbrev pub IsPassed : Result (Unit {0}) → Type 0
IsPassed (ok _) = Unit
IsPassed (raised err) = is_subclass err.cls edgedb_error ≡ true

-- What becomes of a block whose body raised `ex`: from what its end of the transaction gives, what
-- the block gives and the retry object afterwards.
pub data Fate (ex : Exception) (rule : RetryRule) (r : Retry)
    : Result (Unit {0}) → Result (Unit {0}) → Retry → Type 0 where
  -- The rollback's error is no EdgeDBError.
  overtaken :
      (err : Exception)
      → is_subclass err.cls edgedb_error ≡ false
      → Fate ex rule r (raised err) (raised err) r
  -- There is another attempt.
  retried :
      (o : Result (Unit {0}))
      → IsPassed o
      → is_subclass ex.cls edgedb_error ≡ true
      → has_tag ex.cls should_retry ≡ true
      → r.iteration < rule.attempts
      → Fate ex rule r o
          (ok tt)
          (record r { done = false; next_backoff = rule.backoff r.iteration })
  -- There is none.
  reraised :
      (o : Result (Unit {0}))
      → IsPassed o
      → (is_subclass ex.cls edgedb_error ≡ false)
        ⊎ (has_tag ex.cls should_retry ≡ false)
        ⊎ (rule.attempts ≤ r.iteration)
      → Fate ex rule r o (raised ex) r

module _ {W : Type 0} (env : Env W) where
  fate_of :
      {ex : Exception} {rule : RetryRule} {r r' r'' : Retry} {o b b' : Result (Unit {0})}
      → b ≡ b'
      → r' ≡ r''
      → Fate ex rule r o b' r''
      → Fate ex rule r o b r'
  fate_of p q f = rw (p, q) f

  passed :
      (ex : Exception) (rule : RetryRule) (t : Transaction W) (r : Retry)
      → rule_for r.options ex ≡ ok rule
      → escapes (some ex) (exit env true t).0 ≡ none
      → IsPassed (exit env true t).0
      → Fate ex rule r
          (exit env true t).0
          (leave env (some ex) t r).0
          (leave env (some ex) t r).1.retry
  unfolding leave iteration_exit judge is_retryable retry_after
  passed ex rule t r h e k = elim (Bool-cases (is_subclass ex.cls edgedb_error)) [
    | inr other ↦ fate_of (ground arith) (ground arith) (reraised _ k (inl other))
    | inl ours ↦ elim (Bool-cases (has_tag ex.cls should_retry)) [
      | inr untagged ↦ fate_of (ground arith) (ground arith) (reraised _ k (inr (inl untagged)))
      | inl tagged ↦ elim (Bool-cases (leb rule.attempts r.iteration)) [
        | inl over ↦
            fate_of (ground arith) (ground arith) (reraised _ k (inr (inr (leb→le _ _ over))))
        | inr left ↦ fate_of (ground arith) (ground arith) (retried _ k ours tagged (ground arith))
      ]
    ]
  ]

  ended :
      (ex : Exception) (rule : RetryRule) (o : Result (Unit {0})) (t : Transaction W) (r : Retry)
      → rule_for r.options ex ≡ ok rule
      → (exit env true t).0 ≡ o
      → Fate ex rule r
          (exit env true t).0
          (leave env (some ex) t r).0
          (leave env (some ex) t r).1.retry
  unfolding leave iteration_exit escapes
  ended ex rule (ok u) t r h e = passed ex rule t r h (ground arith) (rw e tt)
  ended ex rule (raised err) t r h e = elim (Bool-cases (is_subclass err.cls edgedb_error)) [
    | inl ours ↦ passed ex rule t r h (ground arith) (rw e ours)
    | inr other ↦ rw e (fate_of (ground arith) (ground arith) (overtaken err other))
  ]

  -- A block whose body raised `ex`, where the options give a rule for `ex`. If the rollback raises an
  -- error that is no EdgeDBError, this error is raised and the loop is not made ready. Else, if `ex`
  -- is an EdgeDBError with the tag SHOULD_RETRY and its rule allows more attempts than were made,
  -- `ex` is swallowed and the loop made ready again, with the rule's backoff; in all other cases `ex`
  -- itself is raised, also over an EdgeDBError of the rollback, and the loop is not made ready.
  pub leave_failed_body :
      (ex : Exception) (rule : RetryRule) (t : Transaction W) (r : Retry)
      → rule_for r.options ex ≡ ok rule
      → Fate ex rule r
          (exit env true t).0
          (leave env (some ex) t r).0
          (leave env (some ex) t r).1.retry
  leave_failed_body ex rule t r h = ended ex rule (exit env true t).0 t r h refl

  -- A commit that raises is never retried, whatever the error's tags: its error is raised and the
  -- loop is not made ready.
  leave_failed_commit :
      (err : Exception) (t : Transaction W) (r : Retry)
      → (exit env false t).0 ≡ raised err
      → ((leave env none t r).0 ≡ raised err) × ((leave env none t r).1.retry ≡ r)
  unfolding leave iteration_exit escapes
  leave_failed_commit err t r h = ground arith
