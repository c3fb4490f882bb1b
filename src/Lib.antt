-- ===== src/Lib.antt =====
-- CXL-SpecKV: the host software that keeps a language model's key-value cache in CXL memory.
--
-- The program's parts, and where each is modelled:
-- - Coherence (src/cxl_memory/coherence_manager.{h,cpp}): `CoherenceManager`, the host's shadow of
--   the FPGA's cache directory. Coherence/Types has its data, Coherence/Directory its private
--   helpers, Coherence/Methods and Coherence/Tiers its public methods, Coherence/Report its counts
--   and its destructor. Coherence/Lines is the
--   specification: a state machine for one cache line, which Coherence/Refines and
--   Coherence/Histories relate to the methods. Coherence/Api is the C interface
--   (src/cxl_memory/coherence_c_api.cpp), and Coherence/ApiHistories its sequences of calls.
-- - Engine (src/fpga_engine/cache_engine.{h,cpp}): `FPGACacheEngine`, with quantization, delta and
--   run-length coding, and a translation table.
-- - Memory (src/cxl_memory/cxl_memory_manager.{h,cpp}): `CXLMemoryManager`, which allocates pages
--   in three tiers and moves them. Memory/Pages and Memory/Migrate have its methods, the latter
--   with the mutex that they share. Memory/Histories has sequences of its calls, Memory/Separate
--   the invariant of its address spaces, Memory/Rates the hit rates.
-- - Prefetch (src/prefetcher/speculative_prefetcher.{h,cpp}): `SpeculativePrefetcher`, which asks
--   the memory manager which predicted addresses are cached and queues requests for the others.
--   Prefetch/Methods has its methods, Prefetch/Window the bounded sequences that it keeps,
--   Prefetch/Misses puts it together with the sequences of Memory/Histories.
-- - Predictor (src/prefetcher/lstm_predictor.{h,cpp}): `LSTMPredictor`, whose answers are an
--   argument of the prefetcher. Predictor/Network has its methods, over any further float
--   operations and a `std::sort` (Predictor/Types) of which only what is documented is assumed, for a
--   comparison that is a strict weak order; a read outside a vector is `none`.
-- - Integration (src/integration/memory_allocator.{h,cpp}): `CXLMemoryAllocator`, the allocator
--   for serving frameworks over the memory manager and the prefetcher. Integration/Calls has
--   sequences of its calls. A call answers, hangs on a lock of its own thread, or goes through a
--   null pointer. Integration/Goes takes a further invariant of the manager and the handles with
--   the laws it owes to each call; Integration/Live is one.
-- - System (src/cxl_speckv_system.{h,cpp}): `CXLSpecKVSystem`, which serves batches of tokens over
--   the allocator. The loop over the layers runs on fuel, and more fuel than layers is enough.
--   System/Demo is the demonstration program (src/main.cpp), without what it prints on the way.
-- - Translation (src/utils/address_translation.{h,cpp}): `AddressTranslationUnit`.
-- - Kernel (driver/speckv_kernel_module.c, driver/uapi/speckv_ioctl.h): the Linux driver of the
--   FPGA. Kernel/Handlers has its ioctls, with the list of what they write to the FPGA,
--   Kernel/Load loading and unloading. Kernel/Threads is the handler in several threads at
--   once: each turn of a thread makes an access to what they share, in any order of turns.
-- - Host (host/include/speckv_allocator.hpp, host/src/speckv_allocator.cpp,
--   host/src/speckv_c_api.cpp): `SpeckvAllocator`, the host library's handles, in Host/Allocator,
--   and the C interface over it, with its globals and error codes, in Host/Api. What the driver
--   answers is an argument. The wait for the driver runs on fuel, which is enough when it is more
--   than the number of the first poll that is answered. Host/Driver is `SpeckvDriver`
--   (host/src/speckv_driver.cpp) over the ioctls of Kernel, and Host/Machine the library over it,
--   with what the kernel answers to each call, its errors included.
--
-- Conventions. A 64-bit or 32-bit word is a natural number with its wrap-around written out
-- (Common/Words); bit operations are read as arithmetic by Common/Bits. A `std::unordered_map` is
-- an association list (Common/Assoc), iterated in the order of the list. A method takes the object
-- and returns it anew with its result. The clock's reading is an argument. A call
-- of a method is one step, as if it held its mutex from start to end; only the kernel module, which
-- takes no lock, is interleaved. `float` and `double` are a parameter (Engine/Floats).
--
-- Not modelled: printing; destructors other than that of `CoherenceManager`; the class `SpeckvDriver`
-- of host/include/speckv_driver.h, which has no implementation; the tests; the Verilog and the
-- Python bindings, which are not the C and C++ software.
pub mod Common
pub mod Coherence
pub mod Memory
pub mod Engine
pub mod Translation
pub mod Prefetch
pub mod Predictor
pub mod Kernel
pub mod Host
pub mod Integration
pub mod System
