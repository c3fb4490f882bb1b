-- ===== src/Host.antt =====
-- The host library: host/include/speckv_allocator.hpp and host/src/speckv_allocator.cpp,
-- the driver, host/src/speckv_driver.cpp, and the C interface, host/src/speckv_c_api.cpp.
pub mod Allocator
pub mod Fetch
pub mod Access
pub mod Api
pub mod Safety
pub mod Driver
pub mod Submit
pub mod Machine
pub mod Lost
mod Tests
