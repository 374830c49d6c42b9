-- ===== src/Image.antt =====
-- The directory image/.
pub mod Archive
