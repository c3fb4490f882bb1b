-- ===== src/Translation.antt =====
-- The address translation unit: src/utils/address_translation.{h,cpp}.
pub mod Tlb
pub mod Laws
mod Tests
