-- ===== src/Discovery.antt =====
-- discovery: manifests, the dependency graph and its traversal.
pub mod Types
pub mod Traverse
pub mod Fetch
pub mod Render
