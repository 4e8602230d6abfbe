-- ===== src/Options.antt =====
-- edgedb/options.py: retry rules, transaction options and the options of a connection. Delays are
-- in milliseconds.
pub mod Rules
use Prim.Native.String.{◌++◌}
use edgedb_python.Prelude.Dict.{get, put}
use edgedb_python.Prelude.{
  ℕ, ◌+◌, ◌*◌, ◌^◌, ◌≡◌, ◌↔◌, refl, String, Bool, true, false, Eq, List, [], ◌∷◌, Option, none,
  some, if◌then◌else◌, arith,
}
use edgedb_python.Errors.Class.{is_subclass, builtin}
use edgedb_python.Errors.Raise.{Exception, Result, ok, raised, new}
use edgedb_python.Errors.Execution.{transaction_conflict_error}
use edgedb_python.Errors.Client.{client_error}

pub record RetryRule : Type 0 where
  pub attempts : ℕ
  pub backoff : ℕ → ℕ

-- `default_backoff`, with the number that `random.randrange(100)` gives.
unfoldable pub default_backoff : ℕ → ℕ → ℕ
default_backoff random attempt = 2 ^ attempt * 100 + random

pub data RetryCondition : Type 0 where
  transaction_conflict network_error : RetryCondition

unfoldable pub condition_beq : RetryCondition → RetryCondition → Bool
condition_beq transaction_conflict transaction_conflict = true
condition_beq network_error network_error = true
condition_beq _ _ = false

pub condition_beq_iff : (a b : RetryCondition) → (condition_beq a b ≡ true) ↔ (a ≡ b)
unfolding condition_beq
condition_beq_iff a b = ground arith

instance abbrev pub condition_eq : Eq RetryCondition
condition_eq = record { equal = condition_beq; equal_iff = condition_beq_iff }

pub data IsolationLevel : Type 0 where
  serializable repeatable_read : IsolationLevel

unfoldable pub isolation_text : IsolationLevel → String
isolation_text serializable = "SERIALIZABLE"
isolation_text repeatable_read = "REPEATABLE READ"

-- `overrides` is `None` until a rule is given.
pub record RetryOptions : Type 0 where
  pub default : RetryRule
  pub overrides : Option (List (RetryCondition × RetryRule))

abbrev or_default {ℓ} : {A : Type ℓ} → Option A → A → A
or_default none a = a
or_default (some b) a = b

unfoldable pub init_retry_options : ℕ → (ℕ → ℕ) → RetryOptions
init_retry_options attempts backoff = record {
  default = record { attempts = attempts; backoff = backoff };
  overrides = none;
}

unfoldable pub with_rule : RetryOptions → RetryCondition → Option ℕ → Option (ℕ → ℕ) → RetryOptions
with_rule o condition attempts backoff = record {
  default = o.default;
  overrides = some (
      put condition
        (record {
          attempts = or_default attempts o.default.attempts;
          backoff = or_default backoff o.default.backoff;
        })
        (or_default o.overrides []));
}

unfoldable pub get_rule_for_exception : RetryOptions → Exception → RetryRule
get_rule_for_exception o exception = elim o.overrides [
  | none ↦ o.default
  | some [] ↦ o.default
  | some (entry ∷ more) ↦
      if is_subclass exception.cls transaction_conflict_error
      then or_default (get transaction_conflict (entry ∷ more)) o.default
      else if is_subclass exception.cls client_error
      then or_default (get network_error (entry ∷ more)) o.default
      else o.default
]

unfoldable pub default_retry_options : (ℕ → ℕ) → RetryOptions
unfolding init_retry_options default_backoff
default_retry_options random =
    init_retry_options 3 (λ attempt. default_backoff (random attempt) attempt)

pub record TransactionOptions : Type 0 where
  pub isolation : IsolationLevel
  pub readonly : Bool
  pub deferrable : Bool

unfoldable pub default_transaction_options : TransactionOptions
default_transaction_options = record {
  isolation = repeatable_read;
  readonly = false;
  deferrable = false;
}

unfoldable pub start_transaction_query : TransactionOptions → String
unfolding isolation_text
start_transaction_query o =
    let mode : String = if o.readonly then "READ ONLY" else "READ WRITE" in
    let defer : String = if o.deferrable then "DEFERRABLE" else "NOT DEFERRABLE" in
    "START TRANSACTION ISOLATION "
    ++ (isolation_text o.isolation ++ (", " ++ (mode ++ (", " ++ (defer ++ ";")))))

-- What a slot of `_Options` holds; `_Options(...)` checks no types.
pub data OptionValue : Type 0 where
  retries : RetryOptions → OptionValue
  transactions : TransactionOptions → OptionValue

-- `_Options`
pub record Options : Type 0 where
  pub retry_options : OptionValue
  pub transaction_options : TransactionOptions

-- `_Options.with_retry_options`
unfoldable pub with_retry_options : RetryOptions → Options → Options
with_retry_options options o = record {
  retry_options = retries options;
  transaction_options = o.transaction_options;
}

-- `_Options.with_transaction_options`: the argument goes to the first slot.
unfoldable pub with_transaction_options : TransactionOptions → Options → Options
with_transaction_options options o = record {
  retry_options = transactions options;
  transaction_options = o.transaction_options;
}

-- `_Options.defaults`
unfoldable pub default_options : (ℕ → ℕ) → Options
unfolding default_retry_options default_transaction_options
default_options random = record {
  retry_options = retries (default_retry_options random);
  transaction_options = default_transaction_options;
}

-- `options.retry_options.get_rule_for_exception(exc)`
unfoldable pub rule_for : Options → Exception → Result RetryRule
unfolding get_rule_for_exception
rule_for o exc = elim o.retry_options [
  | retries r ↦ ok (get_rule_for_exception r exc)
  | transactions t ↦ raised (
      new (builtin "AttributeError")
        "'TransactionOptions' object has no attribute 'get_rule_for_exception'")
]
