-- ===== src/Kernel.antt =====
-- The kernel module: driver/speckv_kernel_module.c and driver/uapi/speckv_ioctl.h.
pub mod Types
pub mod Handlers
pub mod Load
pub mod Ring
pub mod Bounds
pub mod Threads
pub mod Alone
pub mod Serial
pub mod Race
pub mod Ends
pub mod Told
pub mod Pending
pub mod Counts
pub mod Resources
pub mod Registers
mod Tests
