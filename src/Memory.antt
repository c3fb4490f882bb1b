-- ===== src/Memory.antt =====
-- The tiered memory manager: src/cxl_memory/cxl_memory_manager.{h,cpp}.
pub mod Types
pub mod Pages
pub mod Migrate
pub mod Translate
pub mod Lock
pub mod Allocate
pub mod Addresses
pub mod Separate
pub mod Fresh
pub mod Histories
pub mod Rates
pub mod Unknown
mod Tests
