-- ===== src/Errors/Execution.antt =====
-- edgedb/errors/__init__.py: the execution, configuration and access errors, in the order of declaration.
use edgedb_python.Prelude.{List, [], ◌∷◌, none, some}
use edgedb_python.Errors.Class.{Class, edgedb_error, subclass, should_retry}

abbrev pub execution_error : Class
execution_error = subclass "ExecutionError" edgedb_error 0x05_00_00_00 none

abbrev pub invalid_value_error : Class
invalid_value_error = subclass "InvalidValueError" execution_error 0x05_01_00_00 none

abbrev pub division_by_zero_error : Class
division_by_zero_error = subclass "DivisionByZeroError" invalid_value_error 0x05_01_00_01 none

abbrev pub numeric_out_of_range_error : Class
numeric_out_of_range_error =
    subclass "NumericOutOfRangeError" invalid_value_error 0x05_01_00_02 none

abbrev pub integrity_error : Class
integrity_error = subclass "IntegrityError" execution_error 0x05_02_00_00 none

abbrev pub constraint_violation_error : Class
constraint_violation_error = subclass "ConstraintViolationError" integrity_error 0x05_02_00_01 none

abbrev pub cardinality_violation_error : Class
cardinality_violation_error =
    subclass "CardinalityViolationError" integrity_error 0x05_02_00_02 none

abbrev pub missing_required_error : Class
missing_required_error = subclass "MissingRequiredError" integrity_error 0x05_02_00_03 none

abbrev pub transaction_error : Class
transaction_error = subclass "TransactionError" execution_error 0x05_03_00_00 none

abbrev pub transaction_conflict_error : Class
transaction_conflict_error =
    subclass "TransactionConflictError" transaction_error 0x05_03_01_00 (some (should_retry ∷ []))

abbrev pub transaction_serialization_error : Class
transaction_serialization_error =
    subclass "TransactionSerializationError" transaction_conflict_error 0x05_03_01_01
      (some (should_retry ∷ []))

abbrev pub transaction_deadlock_error : Class
transaction_deadlock_error =
    subclass "TransactionDeadlockError" transaction_conflict_error 0x05_03_01_02
      (some (should_retry ∷ []))

abbrev pub configuration_error : Class
configuration_error = subclass "ConfigurationError" edgedb_error 0x06_00_00_00 none

abbrev pub access_error : Class
access_error = subclass "AccessError" edgedb_error 0x07_00_00_00 none

abbrev pub authentication_error : Class
authentication_error = subclass "AuthenticationError" access_error 0x07_01_00_00 none

abbrev pub execution_errors : List Class
execution_errors =
    execution_error ∷ invalid_value_error ∷ division_by_zero_error ∷ numeric_out_of_range_error
    ∷ integrity_error ∷ constraint_violation_error ∷ cardinality_violation_error
    ∷ missing_required_error ∷ transaction_error ∷ transaction_conflict_error
    ∷ transaction_serialization_error ∷ transaction_deadlock_error ∷ configuration_error
    ∷ access_error ∷ authentication_error ∷ []
