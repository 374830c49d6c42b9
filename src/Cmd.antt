-- ===== src/Cmd.antt =====
-- cmd/cvetool/: the commands and the parts that they wire together.
pub mod Locks
pub mod Fetcher
pub mod ScanCatalog
pub mod Scan
pub mod Update
