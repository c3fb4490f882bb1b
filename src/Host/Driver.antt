-- ===== src/Host/Driver.antt =====
-- `SpeckvDriver` (host/include/speckv_driver.hpp, host/src/speckv_driver.cpp) over the ioctl handlers
-- of the kernel module. An `int` is its bit pattern. Whether the kernel can copy the structures and
-- has memory is an argument.
use cxl_spec_kv.Common.{
  ℕ, ◌-◌, ◌%◌, ◌^◌, ◌==◌, Bool, true, not, List, Option, none, some, if◌then◌else◌, length, map,
  take, leb,
}
use cxl_spec_kv.Common.Words.{u32_mod}
use cxl_spec_kv.Host.Allocator.{SpeckvDmaDesc, SpeckvPrefetchReq}
use cxl_spec_kv.Kernel.Types.{DmaDesc, DmaBatch, PrefetchReq, Kernel}
use cxl_spec_kv.Kernel.Handlers.{Ioctl, dma_batch, prefetch, set_param, poll_done, speckv_ioctl}

-- `ok()` says that `fd_` is not negative; the device behind it is the module.
pub record SpeckvDriver : Type 0 where
  pub ok : Bool
  pub kernel : Kernel

abbrev pub minus_one : ℕ
minus_one = u32_mod - 1

-- `ret < 0` of an `int`.
abbrev pub is_negative : ℕ → Bool
is_negative ret = leb (2 ^ 31) ret

-- The constructor throws if the device does not open.
unfoldable pub open_driver : Bool → Kernel → Option SpeckvDriver
open_driver opened kernel = if opened then some (record { ok = true; kernel = kernel }) else none

-- `ioctl` as a program sees it: -1 on an error.
unfoldable pub ioctl : Ioctl → SpeckvDriver → SpeckvDriver × ℕ
ioctl c driver =
    let (after, error) = speckv_ioctl c driver.kernel in
    (record driver { kernel = after }, elim error [ none ↦ 0 | some e ↦ minus_one ])

-- The structures that the kernel takes.
unfoldable pub ioctl_desc : SpeckvDmaDesc → DmaDesc
ioctl_desc d = record {
  fpga_addr = d.fpga_addr;
  gpu_addr = d.gpu_addr;
  bytes = d.bytes;
  flags = d.flags;
}

unfoldable pub ioctl_req : ℕ → SpeckvPrefetchReq → PrefetchReq
ioctl_req tokens_user_ptr req = record {
  req_id = req.req_id;
  layer = req.layer;
  reserved0 = 0;
  cur_pos = req.cur_pos;
  depth_k = req.depth_k;
  history_len = req.history_len;
  tokens_user_ptr = tokens_user_ptr;
}

-- `(ret < 0) ? ret : 0`.
unfoldable pub status_of : SpeckvDriver × ℕ → SpeckvDriver × ℕ
status_of (driver, ret) = (driver, if is_negative ret then ret else 0)

-- A copy of the kernel: the value, if the copy does not fault.
abbrev pub copy_of {ℓ} : {A : Type ℓ} → Bool → A → Option A
copy_of readable a = if readable then some a else none

-- `descs_ptr` is where the converted descriptors lie; the kernel copies the first `count` of them.
unfoldable pub submit_dma_batch :
    ℕ → Bool → Bool → List SpeckvDmaDesc → SpeckvDriver → SpeckvDriver × ℕ
unfolding ioctl status_of ioctl_desc
submit_dma_batch descs_ptr readable memory batch driver =
    if not driver.ok
    then (driver, minus_one)
    else if length batch == 0
    then (driver, 0)
    else (let count = length batch % u32_mod in
        let request : DmaBatch = record { user_ptr = descs_ptr; count = count; reserved = 0 } in
        status_of (
          ioctl
            (dma_batch (copy_of readable request) memory
              (copy_of readable (take count (map ioctl_desc batch))))
            driver))

-- `tokens` are the `history_len` tokens at the pointer, `status` what the FIFO's register reads.
unfoldable pub submit_prefetch :
    ℕ → Bool → Bool → ℕ → SpeckvPrefetchReq → List ℕ → SpeckvDriver → SpeckvDriver × ℕ
unfolding ioctl status_of ioctl_req
submit_prefetch tokens_ptr readable memory status req tokens driver =
    if not driver.ok
    then (driver, minus_one)
    else status_of (
        ioctl
          (prefetch (copy_of readable (ioctl_req tokens_ptr req)) memory (copy_of readable tokens)
            status)
          driver)

-- `done` is what the completion register reads, `writable` whether the kernel can store it.
unfoldable pub poll_complete : ℕ → Bool → SpeckvDriver → SpeckvDriver × ℕ
unfolding ioctl
poll_complete done writable driver =
    if not driver.ok
    then (driver, minus_one)
    else (let (after, ret) = ioctl (poll_done done writable) driver in
        (after, if is_negative ret then ret else done))

unfoldable pub driver_set_param : ℕ → Bool → ℕ → SpeckvDriver → SpeckvDriver × ℕ
unfolding ioctl status_of
driver_set_param key readable value driver =
    if not driver.ok
    then (driver, minus_one)
    else status_of
        (ioctl (set_param (copy_of readable (record { key = key; value = value }))) driver)

unfoldable pub set_prefetch_depth : Bool → ℕ → SpeckvDriver → SpeckvDriver × ℕ
unfolding driver_set_param
set_prefetch_depth = driver_set_param 1

unfoldable pub set_compression_scheme : Bool → ℕ → SpeckvDriver → SpeckvDriver × ℕ
unfolding driver_set_param
set_compression_scheme = driver_set_param 2
