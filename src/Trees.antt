-- ===== src/Trees.antt =====
-- messaging/trees: conversation trees of prompts, their queue and their execution claims.
mod Samples
pub mod Node
pub mod Queue
pub mod Graph
pub mod Transitions
pub mod Runtime
