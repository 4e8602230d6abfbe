-- ===== src/Params.antt =====
-- edgedb/con_utils.py, edgedb/credentials.py: the parameters of a connection.
pub mod Credentials
pub mod System
pub mod Hosts
pub mod Query
pub mod Dsn
pub mod Address
pub mod Sockets
pub mod Explicit
