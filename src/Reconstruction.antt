-- ===== src/Reconstruction.antt =====
-- The in-memory books that the analyzer rebuilds from sealed envelopes,
-- packages/readonly-analyzer/src/liqvera_readonly_analyzer/reconstruction/.
pub mod Book
pub mod Levels
pub mod Decoding
pub mod Hyperliquid
pub mod Lighter
pub mod Epochs
pub mod Numbered
pub mod Continuity
