-- ===== src/Kernel/Told.antt =====
-- How often the kernel module (driver/speckv_kernel_module.c) writes the write pointer to its
-- register.
use cxl_spec_kv.Common.{
  ℕ, suc, ◌+◌, ◌≡◌, refl, ◌&&◌, ◌==◌, if◌then◌else◌, List, [], ◌∷◌, ◌++◌, arith,
}
use cxl_spec_kv.Kernel.Types.{
  DmaDesc, PrefetchReq, Write, iowrite32, reg_dma_ring_wr, reg_prefetch_status,
}
use cxl_spec_kv.Kernel.Handlers.{token_writes, header_writes, request_writes}
use cxl_spec_kv.Kernel.Threads.{field_writes}

-- How often the write pointer has been told: the 32-bit writes of its register.
unfoldable pub told : List Write → ℕ
told [] = 0
told (w ∷ ws) = if (w.offset == reg_dma_ring_wr) && (w.width == 4) then suc (told ws) else told ws

pub told-append : (xs ys : List Write) → told (xs ++ ys) ≡ told xs + told ys
unfolding told
told-append [] ys = omega arith
told-append (x ∷ xs) ys = ground (arith, told-append xs ys)

told-token_writes : (i : ℕ) (tokens : List ℕ) → told (token_writes i tokens) ≡ 0
unfolding told token_writes
told-token_writes i [] = refl
told-token_writes i (t ∷ tokens) = ground (arith, told-token_writes (i + 1) tokens)

pub told-request_writes :
    (req : PrefetchReq) (tokens : List ℕ) → told (request_writes req tokens) ≡ 0
unfolding told request_writes header_writes
told-request_writes req tokens = ground (
  arith,
  told-token_writes 0 tokens,
  told-append (token_writes 0 tokens) (iowrite32 1 reg_prefetch_status ∷ []),
)

pub told-field_writes : (slot : ℕ) (d : DmaDesc) → told (field_writes slot d) ≡ 0
unfolding told field_writes
told-field_writes slot d = ground arith
