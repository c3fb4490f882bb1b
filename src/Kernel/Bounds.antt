-- ===== src/Kernel/Bounds.antt =====
-- Which writes of the kernel module (driver/speckv_kernel_module.c) stay inside the MMIO region that
-- it has mapped.

use cxl_spec_kv.Common.{
  ℕ, ◌+◌, ◌≡◌, ◌≤◌, ◌<◌, refl, Bool, true, ◌&&◌, List, [], ◌∷◌, ◌++◌, none, some, leb, arith,
  length, Bool-cases, inl, inr, ◌∙◌,
}
use cxl_spec_kv.Kernel.Types.{
  DmaDesc, PrefetchReq, Write, Kernel, mmio_size, write_all, iowrite32, reg_prefetch_status,
  reg_param_prefetch_k, reg_param_comp_scheme, reg_dma_complete,
}
use cxl_spec_kv.Kernel.Handlers.{
  desc_writes, put_desc, put_descs, ring_full, handle_dma_batch, handle_prefetch, handle_set_param,
  handle_poll_done, token_writes, header_writes, request_writes, Ioctl, dma_batch, prefetch,
  set_param, poll_done, other, speckv_ioctl, run,
}

-- Every write ends inside the region.
unfoldable pub all_inside : List Write → Bool
all_inside [] = true
all_inside (w ∷ ws) = leb (w.offset + w.width) mmio_size && all_inside ws

pub all_inside-append :
    (xs ys : List Write) → all_inside (xs ++ ys) ≡ (all_inside xs && all_inside ys)
unfolding all_inside
all_inside-append [] ys = refl
all_inside-append (x ∷ xs) ys = ground (arith, all_inside-append xs ys)

-- 32755 tokens fit.
all_inside-token_writes :
    (i : ℕ) (tokens : List ℕ)
    → i ≤ 32755
    → all_inside (token_writes i tokens) ≡ leb (i + length tokens) 32755
unfolding all_inside token_writes
all_inside-token_writes i [] h = grind arith
all_inside-token_writes i (t ∷ tokens) h = elim (Bool-cases (leb (i + 1) 32755)) [
  | inl fits ↦ ground (arith, all_inside-token_writes (i + 1) tokens)
  | inr past ↦ ground arith
]

-- The writes of a prefetch request stay inside the region exactly when it has at most 32755 tokens:
-- the module checks no bound on `history_len`.
pub all_inside-request_writes :
    (req : PrefetchReq) (tokens : List ℕ)
    → all_inside (request_writes req tokens) ≡ leb (length tokens) 32755
unfolding request_writes header_writes all_inside
all_inside-request_writes req tokens = ground (
  arith,
  all_inside-append (token_writes 0 tokens) (iowrite32 1 reg_prefetch_status ∷ []),
  all_inside-token_writes 0 tokens,
)

-- The writes so far are inside the region, and the write pointer inside the ring.
abbrev pub IsInside : Kernel → Type 0
IsInside k = (all_inside k.writes ≡ true) × (k.dma_ring_wr_ptr < 1024)

pub write_all-IsInside :
    (ws : List Write) (k : Kernel) → all_inside ws ≡ true → IsInside k → IsInside (write_all ws k)
unfolding write_all
write_all-IsInside ws k e h = ground (arith, all_inside-append k.writes ws)

put_desc-IsInside : (d : DmaDesc) (k : Kernel) → IsInside k → IsInside (put_desc d k)
unfolding put_desc desc_writes all_inside
put_desc-IsInside d k h =
    grind (arith, all_inside-append k.writes (desc_writes k.dma_ring_wr_ptr d))

put_descs-IsInside : (descs : List DmaDesc) (k : Kernel) → IsInside k → IsInside (put_descs descs k)
unfolding put_descs
put_descs-IsInside [] k h = h
put_descs-IsInside (d ∷ descs) k h = elim (Bool-cases (ring_full k)) [
  | inl full ↦ rw (full, put_descs) h
  | inr room ↦
      rw (room, put_descs) (put_descs-IsInside descs (put_desc d k) (put_desc-IsInside d k h))
]

-- A prefetch request carries at most 32755 tokens.
unfoldable pub small : Ioctl → Bool
small (prefetch req memory (some tokens) status) = leb (length tokens) 32755
small (prefetch req memory none status) = true
small (dma_batch batch memory descs) = true
small (set_param p) = true
small (poll_done done copied) = true
small other = true

unfoldable pub all_small : List Ioctl → Bool
unfolding small
all_small [] = true
all_small (c ∷ calls) = small c && all_small calls

ioctl-IsInside :
    (c : Ioctl) (k : Kernel) → small c ≡ true → IsInside k → IsInside (speckv_ioctl c k).0
unfolding small all_inside speckv_ioctl handle_dma_batch handle_prefetch handle_set_param
    handle_poll_done
ioctl-IsInside (dma_batch none memory descs) k s h = h
ioctl-IsInside (dma_batch (some batch) memory none) k s h = ground arith
ioctl-IsInside (dma_batch (some batch) memory (some descs)) k s h =
    ground (arith, put_descs-IsInside descs k h)
ioctl-IsInside (prefetch none memory tokens status) k s h = h
ioctl-IsInside (prefetch (some req) memory none status) k s h = ground arith
ioctl-IsInside (prefetch (some req) memory (some tokens) status) k s h =
    let fits = all_inside-request_writes req tokens ∙ s in
    ground (arith, write_all-IsInside (request_writes req tokens) k fits h)
ioctl-IsInside (set_param none) k s h = h
ioctl-IsInside (set_param (some p)) k s h = ground (
  arith,
  write_all-IsInside (iowrite32 p.value reg_param_prefetch_k ∷ []) k refl h,
  write_all-IsInside (iowrite32 p.value reg_param_comp_scheme ∷ []) k refl h,
)
ioctl-IsInside (poll_done done copied) k s h =
    ground (arith, write_all-IsInside (iowrite32 0 reg_dma_complete ∷ []) k refl h)
ioctl-IsInside other k s h = h

-- From a start with all writes inside the mapped region and the write pointer inside the ring of
-- 1024 slots, a sequence of ioctls keeps them there if no prefetch request of it carries more than
-- 32755 tokens.
pub run-IsInside :
    (calls : List Ioctl) (k : Kernel) → all_small calls ≡ true → IsInside k → IsInside (run calls k)
unfolding run all_small
run-IsInside [] k s h = h
run-IsInside (c ∷ calls) k s h =
    let one : small c ≡ true = ground arith in
    run-IsInside calls (speckv_ioctl c k).0 (ground arith) (ioctl-IsInside c k one h)
