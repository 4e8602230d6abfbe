-- ===== src/Errors/Query.antt =====
-- edgedb/errors/__init__.py: the query errors, in the order of declaration.
use edgedb_python.Prelude.{List, [], ◌∷◌, none}
use edgedb_python.Errors.Class.{Class, edgedb_error, subclass}

abbrev pub query_error : Class
query_error = subclass "QueryError" edgedb_error 0x04_00_00_00 none

abbrev pub invalid_syntax_error : Class
invalid_syntax_error = subclass "InvalidSyntaxError" query_error 0x04_01_00_00 none

abbrev pub edgeql_syntax_error : Class
edgeql_syntax_error = subclass "EdgeQLSyntaxError" invalid_syntax_error 0x04_01_01_00 none

abbrev pub schema_syntax_error : Class
schema_syntax_error = subclass "SchemaSyntaxError" invalid_syntax_error 0x04_01_02_00 none

abbrev pub graphql_syntax_error : Class
graphql_syntax_error = subclass "GraphQLSyntaxError" invalid_syntax_error 0x04_01_03_00 none

abbrev pub invalid_type_error : Class
invalid_type_error = subclass "InvalidTypeError" query_error 0x04_02_00_00 none

abbrev pub invalid_target_error : Class
invalid_target_error = subclass "InvalidTargetError" invalid_type_error 0x04_02_01_00 none

abbrev pub invalid_link_target_error : Class
invalid_link_target_error =
    subclass "InvalidLinkTargetError" invalid_target_error 0x04_02_01_01 none

abbrev pub invalid_property_target_error : Class
invalid_property_target_error =
    subclass "InvalidPropertyTargetError" invalid_target_error 0x04_02_01_02 none

abbrev pub invalid_reference_error : Class
invalid_reference_error = subclass "InvalidReferenceError" query_error 0x04_03_00_00 none

abbrev pub unknown_module_error : Class
unknown_module_error = subclass "UnknownModuleError" invalid_reference_error 0x04_03_00_01 none

abbrev pub unknown_link_error : Class
unknown_link_error = subclass "UnknownLinkError" invalid_reference_error 0x04_03_00_02 none

abbrev pub unknown_property_error : Class
unknown_property_error = subclass "UnknownPropertyError" invalid_reference_error 0x04_03_00_03 none

abbrev pub unknown_user_error : Class
unknown_user_error = subclass "UnknownUserError" invalid_reference_error 0x04_03_00_04 none

abbrev pub unknown_database_error : Class
unknown_database_error = subclass "UnknownDatabaseError" invalid_reference_error 0x04_03_00_05 none

abbrev pub unknown_parameter_error : Class
unknown_parameter_error =
    subclass "UnknownParameterError" invalid_reference_error 0x04_03_00_06 none

abbrev pub schema_error : Class
schema_error = subclass "SchemaError" query_error 0x04_04_00_00 none

abbrev pub schema_definition_error : Class
schema_definition_error = subclass "SchemaDefinitionError" query_error 0x04_05_00_00 none

abbrev pub invalid_definition_error : Class
invalid_definition_error =
    subclass "InvalidDefinitionError" schema_definition_error 0x04_05_01_00 none

abbrev pub invalid_module_definition_error : Class
invalid_module_definition_error =
    subclass "InvalidModuleDefinitionError" invalid_definition_error 0x04_05_01_01 none

abbrev pub invalid_link_definition_error : Class
invalid_link_definition_error =
    subclass "InvalidLinkDefinitionError" invalid_definition_error 0x04_05_01_02 none

abbrev pub invalid_property_definition_error : Class
invalid_property_definition_error =
    subclass "InvalidPropertyDefinitionError" invalid_definition_error 0x04_05_01_03 none

abbrev pub invalid_user_definition_error : Class
invalid_user_definition_error =
    subclass "InvalidUserDefinitionError" invalid_definition_error 0x04_05_01_04 none

abbrev pub invalid_database_definition_error : Class
invalid_database_definition_error =
    subclass "InvalidDatabaseDefinitionError" invalid_definition_error 0x04_05_01_05 none

abbrev pub invalid_operator_definition_error : Class
invalid_operator_definition_error =
    subclass "InvalidOperatorDefinitionError" invalid_definition_error 0x04_05_01_06 none

abbrev pub invalid_alias_definition_error : Class
invalid_alias_definition_error =
    subclass "InvalidAliasDefinitionError" invalid_definition_error 0x04_05_01_07 none

abbrev pub invalid_function_definition_error : Class
invalid_function_definition_error =
    subclass "InvalidFunctionDefinitionError" invalid_definition_error 0x04_05_01_08 none

abbrev pub invalid_constraint_definition_error : Class
invalid_constraint_definition_error =
    subclass "InvalidConstraintDefinitionError" invalid_definition_error 0x04_05_01_09 none

abbrev pub invalid_cast_definition_error : Class
invalid_cast_definition_error =
    subclass "InvalidCastDefinitionError" invalid_definition_error 0x04_05_01_0A none

abbrev pub duplicate_definition_error : Class
duplicate_definition_error =
    subclass "DuplicateDefinitionError" schema_definition_error 0x04_05_02_00 none

abbrev pub duplicate_module_definition_error : Class
duplicate_module_definition_error =
    subclass "DuplicateModuleDefinitionError" duplicate_definition_error 0x04_05_02_01 none

abbrev pub duplicate_link_definition_error : Class
duplicate_link_definition_error =
    subclass "DuplicateLinkDefinitionError" duplicate_definition_error 0x04_05_02_02 none

abbrev pub duplicate_property_definition_error : Class
duplicate_property_definition_error =
    subclass "DuplicatePropertyDefinitionError" duplicate_definition_error 0x04_05_02_03 none

abbrev pub duplicate_user_definition_error : Class
duplicate_user_definition_error =
    subclass "DuplicateUserDefinitionError" duplicate_definition_error 0x04_05_02_04 none

abbrev pub duplicate_database_definition_error : Class
duplicate_database_definition_error =
    subclass "DuplicateDatabaseDefinitionError" duplicate_definition_error 0x04_05_02_05 none

abbrev pub duplicate_operator_definition_error : Class
duplicate_operator_definition_error =
    subclass "DuplicateOperatorDefinitionError" duplicate_definition_error 0x04_05_02_06 none

abbrev pub duplicate_view_definition_error : Class
duplicate_view_definition_error =
    subclass "DuplicateViewDefinitionError" duplicate_definition_error 0x04_05_02_07 none

abbrev pub duplicate_function_definition_error : Class
duplicate_function_definition_error =
    subclass "DuplicateFunctionDefinitionError" duplicate_definition_error 0x04_05_02_08 none

abbrev pub duplicate_constraint_definition_error : Class
duplicate_constraint_definition_error =
    subclass "DuplicateConstraintDefinitionError" duplicate_definition_error 0x04_05_02_09 none

abbrev pub duplicate_cast_definition_error : Class
duplicate_cast_definition_error =
    subclass "DuplicateCastDefinitionError" duplicate_definition_error 0x04_05_02_0A none

abbrev pub query_timeout_error : Class
query_timeout_error = subclass "QueryTimeoutError" query_error 0x04_06_00_00 none

abbrev pub query_errors : List Class
query_errors =
    query_error ∷ invalid_syntax_error ∷ edgeql_syntax_error ∷ schema_syntax_error
    ∷ graphql_syntax_error ∷ invalid_type_error ∷ invalid_target_error ∷ invalid_link_target_error
    ∷ invalid_property_target_error ∷ invalid_reference_error ∷ unknown_module_error
    ∷ unknown_link_error ∷ unknown_property_error ∷ unknown_user_error ∷ unknown_database_error
    ∷ unknown_parameter_error ∷ schema_error ∷ schema_definition_error ∷ invalid_definition_error
    ∷ invalid_module_definition_error ∷ invalid_link_definition_error
    ∷ invalid_property_definition_error ∷ invalid_user_definition_error
    ∷ invalid_database_definition_error ∷ invalid_operator_definition_error
    ∷ invalid_alias_definition_error ∷ invalid_function_definition_error
    ∷ invalid_constraint_definition_error ∷ invalid_cast_definition_error
    ∷ duplicate_definition_error ∷ duplicate_module_definition_error
    ∷ duplicate_link_definition_error ∷ duplicate_property_definition_error
    ∷ duplicate_user_definition_error ∷ duplicate_database_definition_error
    ∷ duplicate_operator_definition_error ∷ duplicate_view_definition_error
    ∷ duplicate_function_definition_error ∷ duplicate_constraint_definition_error
    ∷ duplicate_cast_definition_error ∷ query_timeout_error ∷ []
