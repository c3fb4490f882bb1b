-- ===== src/Kernel/Counts.antt =====
-- What ioctls of the kernel module (driver/speckv_kernel_module.c) that do not interrupt each other
-- do to the DMA ring and to the count of pending descriptors.
use cxl_spec_kv.Common.{
  ℕ, ◌+◌, ◌%◌, ◌≡◌, refl, true, List, [], ◌∷◌, none, some, min, arith, Bool-cases, inl, inr, ◌∙◌,
  ap,
}
use cxl_spec_kv.Common.Words.{u32_mod}
use cxl_spec_kv.Common.Tables.{Every}
use cxl_spec_kv.Kernel.Types.{DmaDesc, Kernel, write_all}
use cxl_spec_kv.Kernel.Handlers.{
  ring_full, put_desc, put_descs, handle_dma_batch, handle_prefetch, handle_set_param,
  handle_poll_done, Ioctl, dma_batch, prefetch, set_param, poll_done, other, speckv_ioctl, run,
}
use cxl_spec_kv.Kernel.Ring.{
  IsRing, put_desc-IsRing, ioctl-Moved, submitted_all, run-dma_ring_wr_ptr,
}
use cxl_spec_kv.Kernel.Threads.{play}
use cxl_spec_kv.Kernel.Serial.{serial, enter, all_ended, play-serial}
use cxl_spec_kv.Kernel.Pending.{completions, all_completions, IsWord}

-- The count has grown as the write pointer has, less the completions.
abbrev Counted : ℕ → Kernel → Kernel → Type 0
Counted done k after =
    (after.dma_pending + done + k.dma_ring_wr_ptr) % u32_mod
    ≡ (k.dma_pending + after.dma_ring_wr_ptr) % u32_mod

put_desc-pending :
    (d : DmaDesc) (k : Kernel) → (put_desc d k).dma_pending ≡ (k.dma_pending + 1) % u32_mod
unfolding put_desc
put_desc-pending d k = refl

put_descs-Counted : (descs : List DmaDesc) (k : Kernel) → IsRing k → Counted 0 k (put_descs descs k)
unfolding put_descs
put_descs-Counted [] k h = omega arith
put_descs-Counted (d ∷ descs) k h = elim (Bool-cases (ring_full k)) [
  | inl full ↦ rw (full, put_descs) (omega arith)
  | inr room ↦
      let (ring, moved) = put_desc-IsRing d k h room in
      let rest = put_descs-Counted descs (put_desc d k) ring in
      rw (room, put_descs) (omega (arith, rest, moved, put_desc-pending d k))
]

ioctl-Counted :
    (c : Ioctl) (k : Kernel)
    → IsRing k
    → k.mapped ≡ true
    → IsWord c
    → Counted (completions c) k (speckv_ioctl c k).0
unfolding write_all speckv_ioctl handle_dma_batch handle_prefetch handle_set_param handle_poll_done
ioctl-Counted (dma_batch none memory descs) k h m w = omega arith
ioctl-Counted (dma_batch (some batch) memory none) k h m w = ground arith
ioctl-Counted (dma_batch (some batch) memory (some descs)) k h m w =
    ground (arith, put_descs-Counted descs k h)
ioctl-Counted (prefetch none memory tokens status) k h m w = ground arith
ioctl-Counted (prefetch (some req) memory tokens status) k h m w = ground arith
ioctl-Counted (set_param none) k h m w = ground arith
ioctl-Counted (set_param (some p)) k h m w = ground arith
ioctl-Counted (poll_done done copied) k h m w = ground arith
ioctl-Counted other k h m w = omega arith

run-Counted :
    (calls : List Ioctl) (k : Kernel)
    → IsRing k
    → k.mapped ≡ true
    → Every IsWord calls
    → Counted (all_completions calls) k (run calls k)
unfolding run
run-Counted [] k h m w = omega arith
run-Counted (c ∷ calls) k h m w =
    let one = ioctl-Counted c k h m w.0 in
    let moved = ioctl-Moved c k h in
    let rest = run-Counted calls (speckv_ioctl c k).0 moved.0 (moved.2 ∙ m) w.1 in
    omega (arith, one, rest)

-- On a mapped region and a ring whose read pointer is 0, any number of threads that each make an
-- ioctl, one of which takes all its turns before the next begins: every thread has left the handler,
-- the write pointer has advanced by one for each descriptor of an accepted batch, up to 1023, and
-- the count of pending descriptors has grown by exactly the slots that the write pointer has
-- advanced, less the completions that were read, each a 32-bit word, modulo 2^32.
pub play-serial-counts :
    (calls : List Ioctl) (k : Kernel)
    → IsRing k
    → k.mapped ≡ true
    → Every IsWord calls
    → let after = play (serial 0 calls) (record { kernel = k; threads = enter calls }) in
      (after.threads ≡ all_ended calls)
      × (after.kernel.dma_ring_wr_ptr ≡ min 1023 (k.dma_ring_wr_ptr + submitted_all calls true))
      × ((after.kernel.dma_pending + all_completions calls + k.dma_ring_wr_ptr) % u32_mod
          ≡ (k.dma_pending + after.kernel.dma_ring_wr_ptr) % u32_mod)
play-serial-counts calls k h m words =
    let same = play-serial calls k in
    let pointer = run-dma_ring_wr_ptr calls k h in
    rw same
      (refl, omega (arith, pointer, ap (submitted_all calls) m), run-Counted calls k h m words)
