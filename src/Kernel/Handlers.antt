-- ===== src/Kernel/Handlers.antt =====
-- The ioctl handlers of the kernel module (driver/speckv_kernel_module.c). What a copy from user
-- space gives (`none` if it faults), whether `kmalloc` succeeds, and what a register reads, are
-- arguments. A handler returns the module and the error, or `none` for 0.
use Prim.Native.Nat.{bit_and}
use cxl_spec_kv.Common.{
  ℕ, ◌+◌, ◌-◌, ◌*◌, ◌%◌, Bool, true, false, not, List, [], ◌∷◌, ◌++◌, Option, none, some,
  if◌then◌else◌, ◌==◌, ltb,
}
use cxl_spec_kv.Common.Words.{u32_mod}
use cxl_spec_kv.Kernel.Types.{
  DmaDesc, DmaBatch, PrefetchReq, Param, Write, Kernel, Errno, efault, einval, enomem, enodev,
  ebusy, enotty, reg_dma_ring_base, reg_dma_ring_wr, reg_dma_complete, reg_prefetch_fifo,
  reg_prefetch_status, reg_param_prefetch_k, reg_param_comp_scheme, dma_ring_size, iowrite64,
  iowrite32, iowrite16, write_all,
}

abbrev pub Reply : Type 0
Reply = Kernel × Option Errno

-- `(dma_ring_wr_ptr + 1) % DMA_RING_SIZE`.
unfoldable pub next_wr : Kernel → ℕ
next_wr k = (k.dma_ring_wr_ptr + 1) % dma_ring_size

unfoldable pub ring_full : Kernel → Bool
unfolding next_wr
ring_full k = next_wr k == k.dma_ring_rd_ptr

-- The fields of a descriptor at a slot of the ring, and the new write pointer.
unfoldable pub desc_writes : ℕ → DmaDesc → List Write
desc_writes slot d =
    let ring_addr = reg_dma_ring_base + slot * 24 in
    iowrite64 d.fpga_addr ring_addr
    ∷ iowrite64 d.gpu_addr (ring_addr + 8)
    ∷ iowrite32 d.bytes (ring_addr + 16)
    ∷ iowrite32 d.flags (ring_addr + 20)
    ∷ iowrite32 ((slot + 1) % dma_ring_size) reg_dma_ring_wr
    ∷ []

unfoldable pub put_desc : DmaDesc → Kernel → Kernel
unfolding desc_writes write_all
put_desc d k = record (write_all (desc_writes k.dma_ring_wr_ptr d) k) {
  dma_ring_wr_ptr = (k.dma_ring_wr_ptr + 1) % dma_ring_size;
  dma_pending = (k.dma_pending + 1) % u32_mod;
}

-- The loop over the descriptors, which breaks when the ring is full.
unfoldable pub put_descs : List DmaDesc → Kernel → Kernel
put_descs [] k = k
put_descs (d ∷ descs) k = elim (ring_full k) [ true ↦ k | false ↦ put_descs descs (put_desc d k) ]

-- `descs` is the copy of `batch.count` descriptors.
unfoldable pub handle_dma_batch : Option DmaBatch → Bool → Option (List DmaDesc) → Kernel → Reply
unfolding put_descs
handle_dma_batch none memory descs k = (k, some efault)
handle_dma_batch (some batch) memory descs k =
    if ltb 4096 batch.count
    then (k, some einval)
    else if not memory
    then (k, some enomem)
    else elim descs [
      | none ↦ (k, some efault)
      | some copied ↦ if not k.mapped then (k, some enodev) else (put_descs copied k, none)
    ]

-- The tokens from index `i` on, after the header of the request.
unfoldable pub token_writes : ℕ → List ℕ → List Write
token_writes i [] = []
token_writes i (token ∷ tokens) =
    iowrite32 token (reg_prefetch_fifo + 20 + i * 4) ∷ token_writes (i + 1) tokens

unfoldable pub header_writes : PrefetchReq → List Write
header_writes req =
    iowrite32 req.req_id reg_prefetch_fifo
    ∷ iowrite16 req.layer (reg_prefetch_fifo + 4)
    ∷ iowrite32 req.cur_pos (reg_prefetch_fifo + 8)
    ∷ iowrite32 req.depth_k (reg_prefetch_fifo + 12)
    ∷ iowrite32 req.history_len (reg_prefetch_fifo + 16)
    ∷ []

-- All that an accepted request writes; the last write starts the FPGA.
unfoldable pub request_writes : PrefetchReq → List ℕ → List Write
unfolding header_writes token_writes
request_writes req tokens =
    header_writes req ++ (token_writes 0 tokens ++ iowrite32 1 reg_prefetch_status ∷ [])

-- `tokens` is the copy of `req.history_len` tokens, `status` what the status register reads.
unfoldable pub handle_prefetch : Option PrefetchReq → Bool → Option (List ℕ) → ℕ → Kernel → Reply
handle_prefetch none memory tokens status k = (k, some efault)
handle_prefetch (some req) memory tokens status k =
    if not memory then (k, some enomem) else elim tokens [
      | none ↦ (k, some efault)
      | some copied ↦
          if not k.mapped
          then (k, some enodev)
          else if not (bit_and status 0x80000000 == 0)
          then (k, some ebusy)
          else (write_all (request_writes req copied) k, none)
    ]

unfoldable pub handle_set_param : Option Param → Kernel → Reply
handle_set_param none k = (k, some efault)
handle_set_param (some p) k =
    if not k.mapped
    then (k, some enodev)
    else if p.key == 1
    then (write_all (iowrite32 p.value reg_param_prefetch_k ∷ []) k, none)
    else if p.key == 2
    then (write_all (iowrite32 p.value reg_param_comp_scheme ∷ []) k, none)
    else (k, some einval)

-- `done` is what the completion register reads, `copied` whether the copy to user space succeeds.
unfoldable pub handle_poll_done : ℕ → Bool → Kernel → Reply
handle_poll_done done copied k =
    if not k.mapped
    then (k, some enodev)
    else (let after =
          if ltb 0 done
          then record (write_all (iowrite32 0 reg_dma_complete ∷ []) k) {
            dma_pending = (k.dma_pending + u32_mod - done) % u32_mod;
          }
          else k in
        (after, if copied then none else some efault))

-- The ioctl commands, with what the copies, the memory and the registers give.
pub data Ioctl : Type 0 where
  dma_batch : Option DmaBatch → Bool → Option (List DmaDesc) → Ioctl
  prefetch : Option PrefetchReq → Bool → Option (List ℕ) → ℕ → Ioctl
  set_param : Option Param → Ioctl
  poll_done : ℕ → Bool → Ioctl
  other : Ioctl

unfoldable pub speckv_ioctl : Ioctl → Kernel → Reply
speckv_ioctl (dma_batch batch memory descs) k = handle_dma_batch batch memory descs k
speckv_ioctl (prefetch req memory tokens status) k = handle_prefetch req memory tokens status k
speckv_ioctl (set_param p) k = handle_set_param p k
speckv_ioctl (poll_done done copied) k = handle_poll_done done copied k
speckv_ioctl other k = (k, some enotty)

-- A sequence of ioctls.
unfoldable pub run : List Ioctl → Kernel → Kernel
run [] k = k
run (c ∷ calls) k = run calls (speckv_ioctl c k).0
