-- ===== src/Engine.antt =====
-- The FPGA cache engine: src/fpga_engine/cache_engine.{h,cpp}.
pub mod Delta
pub mod RunLength
pub mod Floats
pub mod Types
pub mod Quantize
pub mod Pipeline
pub mod Tlb
mod Tests
