-- ===== src/Datastore.antt =====
-- datastore/: the store of the vulnerabilities, as SQLite's tables, and the store of a scan.
pub mod Tables
pub mod Versions
pub mod Ranges
pub mod Update
pub mod Gc
pub mod Operations
pub mod Get
pub mod Indexer
pub mod Status
