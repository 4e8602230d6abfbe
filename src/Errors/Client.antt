-- ===== src/Errors/Client.antt =====
-- edgedb/errors/__init__.py: the messages and client-side errors, in the order of declaration.
use edgedb_python.Prelude.{List, [], ◌∷◌, none, some}
use edgedb_python.Errors.Class.{
  Class, edgedb_error, edgedb_message, subclass, should_reconnect, should_retry,
}

abbrev pub log_message : Class
log_message = subclass "LogMessage" edgedb_message 0xF0_00_00_00 none

abbrev pub warning_message : Class
warning_message = subclass "WarningMessage" log_message 0xF0_01_00_00 none

abbrev pub client_error : Class
client_error = subclass "ClientError" edgedb_error 0xFF_00_00_00 none

abbrev pub client_connection_error : Class
client_connection_error = subclass "ClientConnectionError" client_error 0xFF_01_00_00 none

abbrev pub client_connection_failed_error : Class
client_connection_failed_error =
    subclass "ClientConnectionFailedError" client_connection_error 0xFF_01_01_00 none

abbrev pub client_connection_failed_temporarily_error : Class
client_connection_failed_temporarily_error =
    subclass "ClientConnectionFailedTemporarilyError" client_connection_failed_error 0xFF_01_01_01
      (some (should_reconnect ∷ should_retry ∷ []))

abbrev pub client_connection_timeout_error : Class
client_connection_timeout_error =
    subclass "ClientConnectionTimeoutError" client_connection_error 0xFF_01_02_00
      (some (should_reconnect ∷ should_retry ∷ []))

abbrev pub client_connection_closed_error : Class
client_connection_closed_error =
    subclass "ClientConnectionClosedError" client_connection_error 0xFF_01_03_00
      (some (should_reconnect ∷ should_retry ∷ []))

abbrev pub interface_error : Class
interface_error = subclass "InterfaceError" client_error 0xFF_02_00_00 none

abbrev pub query_argument_error : Class
query_argument_error = subclass "QueryArgumentError" interface_error 0xFF_02_01_00 none

abbrev pub missing_argument_error : Class
missing_argument_error = subclass "MissingArgumentError" query_argument_error 0xFF_02_01_01 none

abbrev pub unknown_argument_error : Class
unknown_argument_error = subclass "UnknownArgumentError" query_argument_error 0xFF_02_01_02 none

abbrev pub invalid_argument_error : Class
invalid_argument_error = subclass "InvalidArgumentError" query_argument_error 0xFF_02_01_03 none

abbrev pub no_data_error : Class
no_data_error = subclass "NoDataError" client_error 0xFF_03_00_00 none

abbrev pub client_errors : List Class
client_errors =
    log_message ∷ warning_message ∷ client_error ∷ client_connection_error
    ∷ client_connection_failed_error ∷ client_connection_failed_temporarily_error
    ∷ client_connection_timeout_error ∷ client_connection_closed_error ∷ interface_error
    ∷ query_argument_error ∷ missing_argument_error ∷ unknown_argument_error
    ∷ invalid_argument_error ∷ no_data_error ∷ []
