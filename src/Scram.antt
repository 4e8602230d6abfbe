-- ===== src/Scram.antt =====
-- edgedb/scram: the messages, keys and proofs of SCRAM-SHA-256.
pub mod Bytes
pub mod Text
pub mod Library
pub mod Keys
pub mod Build
pub mod Parse
pub mod RoundTrip
pub mod Exchange
pub mod Verifier
pub mod Saslprep
