-- ===== src/Predictor.antt =====
-- The token predictor: src/prefetcher/lstm_predictor.{h,cpp}.
pub mod Types
pub mod Network
pub mod Reads
pub mod Best
pub mod Requests
mod Tests
