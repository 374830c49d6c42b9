-- ===== src/Output.antt =====
-- output/: the report formats.
pub mod Quay
