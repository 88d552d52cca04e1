-- ===== src/SigmaPrefilter.antt =====
-- The gate before the Sigma rules over web requests (src/artifact_engine/core/sigma_prefilter.py).
pub mod Like
pub mod Needs
pub mod Reader
pub mod Columns
pub mod Trie
pub mod Gate
mod Tests
