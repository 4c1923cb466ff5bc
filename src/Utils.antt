-- ===== src/Utils.antt =====
-- The utils package.
pub mod StdCopy
