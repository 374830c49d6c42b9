-- ===== src/Catalog.antt =====
-- catalog/: package catalogs and the target system that they describe.
pub mod Nevra
pub mod Target
pub mod Mapping
pub mod Json
pub mod Enrich
pub mod OsRelease
pub mod HostPaths
pub mod DnfOutput
pub mod Dnf
pub mod Generate
