-- ===== src/Tests/Retries.antt =====
-- Retrying transactions in the small world.
use edgedb_python.Prelude.{ℕ, ◌+◌, ◌≤◌, ◌≡◌, refl, true, Option, none, some, arith}
use edgedb_python.Errors.Raise.{Exception, Result, ok}
use edgedb_python.Options.{
  Options, RetryRule, retries, default_transaction_options, rule_for, get_rule_for_exception,
}
use edgedb_python.Transaction.{Transaction, started, pool, exit}
use edgedb_python.Retry.{Retry, Loop, init_retry, leave, loop}
use edgedb_python.Retry.Decision.{Fate, leave_failed_body}
use edgedb_python.Retry.Bound.{IsBounded, loop_total}
use edgedb_python.Tests.World.{World, env, quiet, pooled, conflict}

abbrev rule : RetryRule
rule = record { attempts = 3; backoff = λ n. 100 }

abbrev options : Options
options = record {
  retry_options = retries (record { default = rule; overrides = none });
  transaction_options = default_transaction_options;
}

abbrev first_try : Retry
first_try = record { iteration = 1; done = true; next_backoff = 0; options = options }

abbrev running : World → Transaction World
running w = record (pooled w) { state = started; managed = true; attached = true }

options_rule : rule_for options conflict ≡ ok rule
unfolding rule_for get_rule_for_exception
options_rule = refl

leave_failed_body_example :
    Fate conflict rule first_try
      (exit env true (running quiet)).0
      (leave env (some conflict) (running quiet) first_try).0
      (leave env (some conflict) (running quiet) first_try).1.retry
leave_failed_body_example =
    leave_failed_body env conflict rule (running quiet) first_try options_rule

options-IsBounded : IsBounded 3 options
unfolding rule_for get_rule_for_exception
options-IsBounded exc r h = ground arith

-- A body that always fails with a conflict.
abbrev always : ℕ → World → Option Exception × World
always n w = (some conflict, w)

loop_total_example :
    (res : Result (Unit {0}) × Loop World) × (loop env pool always
        (3 + 1)
        (record { retry = init_retry options; borrowed = none; world = quiet })
      ≡ some res)
    × (res.1.retry.iteration ≤ 3)
loop_total_example = loop_total env 3 pool always options none quiet (omega arith) options-IsBounded
