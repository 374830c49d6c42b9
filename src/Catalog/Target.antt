-- ===== src/Catalog/Target.antt =====
-- catalog/target.go: what the catalog's target system is.
pub mod Architecture
pub mod Roots
pub mod RepoDirs
