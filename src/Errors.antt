-- ===== src/Errors.antt =====
-- edgedb/errors: the exception classes, their codes and tags, the lookup of a class by code, and
-- exceptions as results.
pub mod Class
pub mod Server
pub mod Query
pub mod Execution
pub mod Client
pub mod Registry
pub mod Hierarchy
pub mod Raise
