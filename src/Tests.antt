-- ===== src/Tests.antt =====
-- Evaluations of the models on small inputs, and the theorems at concrete inputs.
mod World
mod Errors
mod Transactions
mod Retries
mod Library
mod Scram
mod Params
mod Connect
mod Pool
mod Lru
mod Legacy
mod Codecs
mod Registry
mod Datatypes
mod TaskGroup
