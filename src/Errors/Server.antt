-- ===== src/Errors/Server.antt =====
-- edgedb/errors/__init__.py: the internal, unsupported-feature and protocol errors, in the order of declaration.
use edgedb_python.Prelude.{List, [], ◌∷◌, none}
use edgedb_python.Errors.Class.{Class, edgedb_error, subclass}

abbrev pub internal_server_error : Class
internal_server_error = subclass "InternalServerError" edgedb_error 0x01_00_00_00 none

abbrev pub unsupported_feature_error : Class
unsupported_feature_error = subclass "UnsupportedFeatureError" edgedb_error 0x02_00_00_00 none

abbrev pub protocol_error : Class
protocol_error = subclass "ProtocolError" edgedb_error 0x03_00_00_00 none

abbrev pub binary_protocol_error : Class
binary_protocol_error = subclass "BinaryProtocolError" protocol_error 0x03_01_00_00 none

abbrev pub unsupported_protocol_version_error : Class
unsupported_protocol_version_error =
    subclass "UnsupportedProtocolVersionError" binary_protocol_error 0x03_01_00_01 none

abbrev pub type_spec_not_found_error : Class
type_spec_not_found_error =
    subclass "TypeSpecNotFoundError" binary_protocol_error 0x03_01_00_02 none

abbrev pub unexpected_message_error : Class
unexpected_message_error =
    subclass "UnexpectedMessageError" binary_protocol_error 0x03_01_00_03 none

abbrev pub input_data_error : Class
input_data_error = subclass "InputDataError" protocol_error 0x03_02_00_00 none

abbrev pub result_cardinality_mismatch_error : Class
result_cardinality_mismatch_error =
    subclass "ResultCardinalityMismatchError" protocol_error 0x03_03_00_00 none

abbrev pub capability_error : Class
capability_error = subclass "CapabilityError" protocol_error 0x03_04_00_00 none

abbrev pub unsupported_capability_error : Class
unsupported_capability_error =
    subclass "UnsupportedCapabilityError" capability_error 0x03_04_01_00 none

abbrev pub disabled_capability_error : Class
disabled_capability_error = subclass "DisabledCapabilityError" capability_error 0x03_04_02_00 none

abbrev pub server_errors : List Class
server_errors =
    internal_server_error ∷ unsupported_feature_error ∷ protocol_error ∷ binary_protocol_error
    ∷ unsupported_protocol_version_error ∷ type_spec_not_found_error ∷ unexpected_message_error
    ∷ input_data_error ∷ result_cardinality_mismatch_error ∷ capability_error
    ∷ unsupported_capability_error ∷ disabled_capability_error ∷ []
