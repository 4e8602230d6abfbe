-- ===== src/Options/Rules.antt =====
-- What the options of edgedb/options.py hold after each way to change them.
use edgedb_python.Prelude.Dict.{get, get-put}
use edgedb_python.Prelude.{
  ℕ, ◌≡◌, refl, Bool, false, ◌==◌, List, [], ◌∷◌, Option, none, some, if◌then◌else◌, arith,
  Option-cases, inl, inr,
}
use edgedb_python.Errors.Class.{is_subclass, builtin}
use edgedb_python.Errors.Raise.{Exception, ok, raised, new}
use edgedb_python.Errors.Execution.{transaction_conflict_error}
use edgedb_python.Errors.Client.{client_error}
use edgedb_python.Options.{
  RetryRule, RetryOptions, RetryCondition, transaction_conflict, network_error, condition_eq,
  with_rule, get_rule_for_exception, or_default, Options, TransactionOptions, transactions,
  with_retry_options, with_transaction_options, rule_for,
}

-- The condition that an exception meets: a conflict, else any client error.
pub condition_of : Exception → Option RetryCondition
condition_of exc =
    if is_subclass exc.cls transaction_conflict_error
    then some transaction_conflict
    else if is_subclass exc.cls client_error
    then some network_error
    else none

-- Whether a rule for the condition applies to the exception.
pub applies : RetryCondition → Exception → Bool
applies c exc = elim (condition_of exc) [ none ↦ false | some d ↦ c == d ]

abbrev pub new_rule : RetryOptions → Option ℕ → Option (ℕ → ℕ) → RetryRule
new_rule o attempts backoff = record {
  attempts = or_default attempts o.default.attempts;
  backoff = or_default backoff o.default.backoff;
}

abbrev entries : RetryOptions → List (RetryCondition × RetryRule)
entries o = or_default o.overrides []

rule_by_condition : RetryOptions → Option RetryCondition → RetryRule
rule_by_condition o none = o.default
rule_by_condition o (some d) = or_default (get d (entries o)) o.default

-- The empty dictionary of rules, which Python takes for false, gives the default like a missing one.
get_rule-by_condition :
    (o : RetryOptions) (exc : Exception)
    → get_rule_for_exception o exc ≡ rule_by_condition o (condition_of exc)
unfolding get_rule_for_exception rule_by_condition condition_of get
get_rule-by_condition o exc = elim (Option-cases o.overrides) [
  | inl e ↦ ground arith
  | inr ([], e) ↦ ground arith
  | inr (entry ∷ more, e) ↦ ground arith
]

-- A rule given by `with_rule` governs exactly the exceptions that meet its condition, with what it
-- leaves out taken from the default rule; for all others the rule is the one before.
rule_of-with_rule :
    (o : RetryOptions) (c : RetryCondition) (attempts : Option ℕ) (backoff : Option (ℕ → ℕ))
    (exc : Exception)
    → get_rule_for_exception (with_rule o c attempts backoff) exc
      ≡ (if applies c exc then new_rule o attempts backoff else get_rule_for_exception o exc)
unfolding with_rule rule_by_condition applies
rule_of-with_rule o c attempts backoff exc =
    rw (get_rule-by_condition (with_rule o c attempts backoff) exc, get_rule-by_condition o exc)
      (elim (Option-cases (condition_of exc)) [
        | inl e ↦ ground arith
        | inr (d, e) ↦ ground (arith, get-put c d (new_rule o attempts backoff) (entries o))
      ])

-- `with_transaction_options` leaves the transaction options as they were, whatever it is given, and
-- puts its argument where the retry options stood; so the rule for any exception is then an
-- AttributeError, until retry options are set again.
with_transaction_options_misplaced :
    (o : Options) (t : TransactionOptions) (exc : Exception)
    → ((with_transaction_options t o).transaction_options ≡ o.transaction_options)
      × ((with_transaction_options t o).retry_options ≡ transactions t)
      × ((e : Exception) × (e.cls ≡ builtin "AttributeError")
          × (rule_for (with_transaction_options t o) exc ≡ raised e))
unfolding with_transaction_options rule_for new
with_transaction_options_misplaced o t exc = (refl, refl, (_, refl, refl))

-- Retry options that are set govern the exceptions, and the transaction options stay.
pub with_retry_options_lem :
    (o : Options) (r : RetryOptions) (exc : Exception)
    → (rule_for (with_retry_options r o) exc ≡ ok (get_rule_for_exception r exc))
      × ((with_retry_options r o).transaction_options ≡ o.transaction_options)
unfolding with_retry_options rule_for
with_retry_options_lem o r exc = (refl, refl)
