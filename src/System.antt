-- ===== src/System.antt =====
-- The system that serves tokens over the allocator: src/cxl_speckv_system.{h,cpp}.
pub mod Types
pub mod Methods
pub mod Turn
pub mod Process
pub mod Demo
mod Tests
