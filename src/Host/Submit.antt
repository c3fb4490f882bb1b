-- ===== src/Host/Submit.antt =====
-- What reaches the FPGA through `SpeckvDriver` (host/src/speckv_driver.cpp) and the kernel module.
use cxl_spec_kv.Common.{
  ℕ, ◌-◌, ◌%◌, ◌≡◌, ◌<◌, refl, Bool, true, false, ◌&&◌, List, ◌++◌, if◌then◌else◌, ◌==◌, length,
  map, take, leb, arith,
}
use cxl_spec_kv.Common.Words.{u32_mod}
use cxl_spec_kv.Host.Allocator.{SpeckvDmaDesc}
use cxl_spec_kv.Kernel.Handlers.{handle_dma_batch, speckv_ioctl}
use cxl_spec_kv.Kernel.Ring.{IsRing, ring_writes, put_descs-writes}
use cxl_spec_kv.Host.Driver.{SpeckvDriver, submit_dma_batch, ioctl_desc, minus_one}

-- The number of descriptors as the ioctl carries it, in 32 bits.
abbrev pub carried : List SpeckvDmaDesc → ℕ
carried batch = length batch % u32_mod

-- With the device open, the region mapped and a ring whose read pointer is 0, the kernel takes a
-- batch of at least one descriptor if it can read it and has memory for the copy, and if the number
-- that the ioctl carries, modulo 2^32, is at most 4096. It is then reported as submitted, and the
-- FPGA is given the first descriptors of it, that many of them for which the ring has room, in
-- their order and with their fields. Otherwise the answer is -1 and nothing is written.
pub submit_dma_batch-writes :
    (descs_ptr : ℕ) (readable memory : Bool) (batch : List SpeckvDmaDesc) (driver : SpeckvDriver)
    → driver.ok ≡ true
    → driver.kernel.mapped ≡ true
    → IsRing driver.kernel
    → 0 < length batch
    → ((submit_dma_batch descs_ptr readable memory batch driver).1
        ≡ (if readable && (memory && leb (carried batch) 4096) then 0 else minus_one))
      × ((submit_dma_batch descs_ptr readable memory batch driver).0.kernel.writes ≡ (
          if readable && (memory && leb (carried batch) 4096)
          then driver.kernel.writes
            ++ ring_writes driver.kernel.dma_ring_wr_ptr (
                take
                  (1023 - driver.kernel.dma_ring_wr_ptr)
                  (take (carried batch) (map ioctl_desc batch)))
          else driver.kernel.writes))
unfolding submit_dma_batch speckv_ioctl handle_dma_batch
submit_dma_batch-writes descs_ptr true memory batch driver ok mapped ring some_descs =
    let written =
      put_descs-writes (take (carried batch) (map ioctl_desc batch)) driver.kernel ring in
    let filled : (length batch == 0) ≡ false = ground arith in
    (rw (ok, filled, mapped) (ground arith), rw (ok, filled, mapped) (ground (arith, written)))
submit_dma_batch-writes descs_ptr false memory batch driver ok mapped ring some_descs =
    let filled : (length batch == 0) ≡ false = ground arith in
    (rw (ok, filled) refl, rw (ok, filled) refl)
