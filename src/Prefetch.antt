-- ===== src/Prefetch.antt =====
-- The speculative prefetcher: src/prefetcher/speculative_prefetcher.{h,cpp}.
pub mod Window
pub mod Types
pub mod Methods
pub mod Depth
pub mod Requests
pub mod Misses
pub mod Streaks
pub mod Asked
mod Tests
