-- ===== src/Kernel/Threads.antt =====
-- The ioctls of the kernel module (driver/speckv_kernel_module.c) in several threads at once.
-- `unlocked_ioctl` takes no lock, so a call may be interrupted by another between any two accesses to
-- `dma_ring_wr_ptr`, to the region and to `dma_pending`. One turn of a thread makes one such access,
-- or reads `dma_ring_wr_ptr` and writes what it read to the region; it is seen at once by all. The
-- copies from user space, and what the registers read, are those of the call.
use Prim.Native.Nat.{bit_and}
use cxl_spec_kv.Common.{
  Bool, ◌-◌, ◌&&◌, not, ltb, ◌==◌, if◌then◌else◌, ℕ, zero, suc, ◌+◌, ◌*◌, ◌%◌, true, false, List,
  [], ◌∷◌, none, some, get_elem?, set, length,
}
use cxl_spec_kv.Common.Words.{u32_mod}
use cxl_spec_kv.Kernel.Types.{
  DmaDesc, Write, Kernel, write_all, iowrite64, iowrite32, reg_dma_ring_base, reg_dma_ring_wr,
  reg_dma_complete, reg_param_prefetch_k, reg_param_comp_scheme,
}
use cxl_spec_kv.Kernel.Handlers.{
  next_wr, ring_full, request_writes, Ioctl, dma_batch, prefetch, set_param, poll_done, other,
}

-- The writes of the fields of a descriptor to a slot.
unfoldable pub field_writes : ℕ → DmaDesc → List Write
field_writes slot d =
    let ring_addr = reg_dma_ring_base + slot * 24 in
    iowrite64 d.fpga_addr ring_addr
    ∷ iowrite64 d.gpu_addr (ring_addr + 8)
    ∷ iowrite32 d.bytes (ring_addr + 16)
    ∷ iowrite32 d.flags (ring_addr + 20)
    ∷ []

-- Where a thread stands. In the loop over the descriptors, with those that are left: from the check
-- of the ring on it keeps `next_wr`, which it has computed, and once it has read the address of the
-- slot the writes that are left. Elsewhere: at the start of an ioctl, with writes to the region left,
-- or with a count of completions to take off, and then to clear.
pub data Phase : Type 0 where
  arriving : Ioctl → Phase
  checking : List DmaDesc → Phase
  addressing : ℕ → DmaDesc → List DmaDesc → Phase
  writing : ℕ → List Write → List DmaDesc → Phase
  telling : List DmaDesc → Phase
  counting : List DmaDesc → Phase
  sending : List Write → Phase
  subtracting : ℕ → Phase
  clearing : Phase
  ended : Phase

-- Up to the first access, where `mapped` says that `mmio_base` is not null.
unfoldable pub arrive : Ioctl → Bool → Phase
arrive (dma_batch (some batch) memory (some descs)) mapped =
    if not (ltb 4096 batch.count) && (memory && mapped) then checking descs else ended
arrive (dma_batch (some batch) memory none) mapped = ended
arrive (dma_batch none memory descs) mapped = ended
arrive (prefetch (some req) memory (some tokens) status) mapped =
    if (memory && mapped) && (bit_and status 0x80000000 == 0)
    then sending (request_writes req tokens)
    else ended
arrive (prefetch (some req) memory none status) mapped = ended
arrive (prefetch none memory tokens status) mapped = ended
arrive (set_param (some p)) mapped =
    if mapped && (p.key == 1)
    then sending (iowrite32 p.value reg_param_prefetch_k ∷ [])
    else if mapped && (p.key == 2)
    then sending (iowrite32 p.value reg_param_comp_scheme ∷ [])
    else ended
arrive (set_param none) mapped = ended
arrive (poll_done done copied) mapped = if mapped && ltb 0 done then subtracting done else ended
arrive other mapped = ended

-- One turn of a thread.
unfoldable pub advance : Phase → Kernel → Kernel × Phase
unfolding arrive
advance (arriving c) k = (k, arrive c k.mapped)
advance (checking []) k = (k, ended)
advance (checking (d ∷ rest)) k = elim (ring_full k) [
  | true ↦ (k, ended)
  | false ↦ (k, addressing (next_wr k) d rest)
]
advance (addressing next d rest) k = (k, writing next (field_writes k.dma_ring_wr_ptr d) rest)
advance (writing next [] rest) k = (record k { dma_ring_wr_ptr = next }, telling rest)
advance (writing next (w ∷ ws) rest) k = (write_all (w ∷ []) k, writing next ws rest)
advance (telling rest) k =
    (write_all (iowrite32 k.dma_ring_wr_ptr reg_dma_ring_wr ∷ []) k, counting rest)
advance (counting rest) k =
    (record k { dma_pending = (k.dma_pending + 1) % u32_mod }, checking rest)
advance (sending []) k = (k, ended)
advance (sending (w ∷ ws)) k = (write_all (w ∷ []) k, sending ws)
advance (subtracting done) k =
    (record k { dma_pending = (k.dma_pending + u32_mod - done) % u32_mod }, clearing)
advance clearing k = (write_all (iowrite32 0 reg_dma_complete ∷ []) k, ended)
advance ended k = (k, ended)

-- A thread that takes so many turns, and no other thread between them.
unfoldable pub advance_all : ℕ → Phase → Kernel → Kernel × Phase
unfolding advance
advance_all zero p k = (k, p)
advance_all (suc n) p k = let (after, next) = advance p k in advance_all n next after

-- The module and the threads that are inside the handler.
pub record Machine : Type 0 where
  pub kernel : Kernel
  pub threads : List Phase

-- The turn of a thread; a number that no thread has changes nothing.
unfoldable pub turn : ℕ → Machine → Machine
turn i s = elim (get_elem? s.threads i) [
  | none ↦ s
  | some p ↦
      let (after, next) = advance p s.kernel in
      record { kernel = after; threads = set s.threads i next }
]

-- The turns that an ioctl takes, at most.
unfoldable pub turns : Ioctl → ℕ
turns (dma_batch batch memory (some descs)) = length descs * 9 + 2
turns (prefetch req memory (some tokens) status) = length tokens + 8
turns _ = 3

-- The turns in the order that the scheduler gives.
unfoldable pub play : List ℕ → Machine → Machine
play [] s = s
play (i ∷ schedule) s = play schedule (turn i s)
