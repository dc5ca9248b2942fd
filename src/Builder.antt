-- ===== src/Builder.antt =====
-- lib/builder: build nodes and build stages.
pub mod Node
pub mod Stage
pub mod Cached
pub mod Chain
pub mod Layers
pub mod Plan
pub mod Execute
pub mod Steps
