-- ===== src/Integration.antt =====
-- The memory allocator for serving frameworks: src/integration/memory_allocator.{h,cpp}.
pub mod Types
pub mod Methods
pub mod Kept
pub mod Touch
pub mod Access
pub mod Calls
pub mod Books
pub mod Room
pub mod Goes
pub mod History
pub mod Live
pub mod Apart
mod Tests
