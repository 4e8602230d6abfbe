-- ===== src/Tests/Errors.antt =====
-- Errors and options at concrete inputs.
use edgedb_python.Prelude.Dict.{get, put}
use edgedb_python.Prelude.{ℕ, ◌≡◌, refl, true, List, [], ◌∷◌, none, some, arith}
use edgedb_python.Errors.Class.{Class, edgedb_error, code_of, is_subclass}
use edgedb_python.Errors.Server.{protocol_error, binary_protocol_error, unexpected_message_error}
use edgedb_python.Errors.Client.{warning_message}
use edgedb_python.Errors.Registry.{
  quad_beq, Meta, empty_meta, register, register_all, lookup_cls, severity_name,
}
use edgedb_python.Errors.Registry.Nearest.{nearest, lookup_cls-nearest}
use edgedb_python.Errors.Hierarchy.{lookup_message_cls}
use edgedb_python.Options.{
  RetryOptions, with_rule, get_rule_for_exception, transaction_conflict, start_transaction_query,
  Options, TransactionOptions, serializable, default_transaction_options, condition_beq, retries,
}
use edgedb_python.Tests.World.{conflict}

abbrev three : List Class
three = protocol_error ∷ binary_protocol_error ∷ unexpected_message_error ∷ []

abbrev entry : Class → ℕ → ℕ × Class
entry c n = (n, c)

abbrev three_meta : Meta
three_meta = record {
  index =
      entry protocol_error 0x03_00_00_00
      ∷ entry binary_protocol_error 0x03_01_00_00
      ∷ entry unexpected_message_error 0x03_01_00_03
      ∷ [];
  base_class_index =
      (record { b1 = 3; b2 = 0; b3 = 0; b4 = 0 }, protocol_error)
      ∷ (record { b1 = 3; b2 = 1; b3 = 0; b4 = 0 }, binary_protocol_error)
      ∷ (record { b1 = 3; b2 = 1; b3 = 0; b4 = 3 }, unexpected_message_error)
      ∷ [];
}

three_registered : register_all three empty_meta ≡ some three_meta
unfolding register register_all put quad_beq code_of
three_registered = refl

lookup_cls-nearest_example :
    lookup_cls three_meta edgedb_error 0x03_01_00_09
    ≡ some (nearest three edgedb_error 0x03_01_00_09)
lookup_cls-nearest_example =
    lookup_cls-nearest three three_registered edgedb_error 0x03_01_00_09 (omega arith)

unknown_message : lookup_cls three_meta edgedb_error 0x03_01_00_09 ≡ some binary_protocol_error
unfolding lookup_cls get quad_beq
unknown_message = refl

warning_found : lookup_message_cls 0xF0_01_00_07 ≡ some warning_message
unfolding lookup_message_cls code_of
warning_found = refl

severities :
    (severity_name 20 ≡ "DEBUG") × (severity_name 61 ≡ "WARNING") × (severity_name 201 ≡ "PANIC")
unfolding severity_name
severities = (refl, refl, refl)

abbrev base : RetryOptions
base = record { default = record { attempts = 3; backoff = λ n. 100 }; overrides = none }

nine_attempts :
    (get_rule_for_exception (with_rule base transaction_conflict (some 9) none) conflict).attempts
    ≡ 9
unfolding get_rule_for_exception with_rule put get is_subclass condition_beq
nine_attempts = refl

abbrev options : Options
options = record { retry_options = retries base; transaction_options = default_transaction_options }

abbrev strict : TransactionOptions
strict = record { isolation = serializable; readonly = true; deferrable = true }

strict_query :
    start_transaction_query strict
    ≡ "START TRANSACTION ISOLATION SERIALIZABLE, READ ONLY, DEFERRABLE;"
unfolding start_transaction_query
strict_query = refl
