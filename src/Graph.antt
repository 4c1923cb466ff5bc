-- ===== src/Graph.antt =====
-- The image graph: the tags of images.
pub mod Tags
