-- ===== src/Coherence.antt =====
-- The host's shadow of the FPGA's coherence directory: src/cxl_memory/coherence_manager.{h,cpp}.
pub mod Types
pub mod Directory
pub mod Methods
pub mod Tiers
pub mod Frames
pub mod Lines
pub mod Refines
pub mod Calls
pub mod Shape
pub mod Histories
pub mod Protocol
pub mod WellFormed
pub mod Counters
pub mod Addresses
pub mod Report
pub mod Api
pub mod ApiHistories
mod Tests
