-- ===== src/Common.antt =====
-- packages/cwap_common: the database's guarded writes, authorisation, and the queue.
pub mod Tables
pub mod Ledger
pub mod Authz
pub mod Gateway
pub mod Logbus
