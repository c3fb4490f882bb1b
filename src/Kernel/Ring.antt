-- ===== src/Kernel/Ring.antt =====
-- What the DMA ring of the kernel module (driver/speckv_kernel_module.c) takes, over any history of
-- ioctls: nothing in the module ever moves `dma_ring_rd_ptr`.
use mathlib.Core.List.{append-nil, append_assoc}
use cxl_spec_kv.Common.{
  ℕ, zero, suc, ◌+◌, ◌-◌, ◌≡◌, ◌≤◌, ◌<◌, refl, Bool, true, false, not, ◌&&◌, List, [], ◌∷◌, ◌++◌,
  none, some, if◌then◌else◌, arith, min, length, take, ltb, Bool-cases, inl, inr, ◌∙◌, sym, ap,
}
use cxl_spec_kv.Kernel.Types.{DmaDesc, DmaBatch, Write, Kernel, write_all}
use cxl_spec_kv.Kernel.Handlers.{
  desc_writes, put_desc, put_descs, ring_full, handle_dma_batch, handle_prefetch, handle_set_param,
  handle_poll_done, Ioctl, dma_batch, prefetch, set_param, poll_done, other, speckv_ioctl, run,
}

-- The read pointer stands at 0 and the write pointer inside the ring.
abbrev pub IsRing : Kernel → Type 0
IsRing k = (k.dma_ring_rd_ptr ≡ 0) × (k.dma_ring_wr_ptr < 1024)

-- The writes for descriptors in successive slots.
pub ring_writes : ℕ → List DmaDesc → List Write
unfolding desc_writes
ring_writes slot [] = []
ring_writes slot (d ∷ descs) = desc_writes slot d ++ ring_writes (slot + 1) descs

ring_full-wr : (k : Kernel) → IsRing k → ring_full k ≡ ltb 1022 k.dma_ring_wr_ptr
unfolding ring_full
ring_full-wr k h = ground arith

pub put_desc-IsRing :
    (d : DmaDesc) (k : Kernel)
    → IsRing k
    → ring_full k ≡ false
    → IsRing (put_desc d k) × ((put_desc d k).dma_ring_wr_ptr ≡ k.dma_ring_wr_ptr + 1)
unfolding put_desc ring_full
put_desc-IsRing d k h room = ground arith

-- A full ring takes nothing.
put_descs-full :
    (descs : List DmaDesc) (k : Kernel)
    → IsRing k
    → 1023 ≤ k.dma_ring_wr_ptr
    → put_descs descs k ≡ k
unfolding put_descs
put_descs-full [] k h end = refl
put_descs-full (d ∷ descs) k h end =
    let full : ring_full k ≡ true = ring_full-wr k h ∙ grind arith in rw (full, put_descs) refl

-- A batch moves the write pointer to at most 1023.
pub put_descs-wr :
    (descs : List DmaDesc) (k : Kernel)
    → IsRing k
    → IsRing (put_descs descs k)
      × ((put_descs descs k).dma_ring_wr_ptr ≡ min 1023 (k.dma_ring_wr_ptr + length descs))
unfolding put_descs
put_descs-wr [] k h = (h, omega arith)
put_descs-wr (d ∷ descs) k h = elim (Bool-cases (ring_full k)) [
  | inl full ↦ let at_end = sym (ring_full-wr k h) ∙ full in rw (full, put_descs) (h, grind arith)
  | inr room ↦
      let one = put_desc-IsRing d k h room in
      let rest = put_descs-wr descs (put_desc d k) one.0 in
      let before = sym (ring_full-wr k h) ∙ room in
      rw (room, put_descs) (rest.0, omega (arith, rest.1, one.1))
]

take-nil {ℓ} : {A : Type ℓ} (n : ℕ) → take {A = A} n [] ≡ []
take-nil zero = refl
take-nil (suc n) = refl

put_desc-writes :
    (d : DmaDesc) (k : Kernel) → (put_desc d k).writes ≡ k.writes ++ desc_writes k.dma_ring_wr_ptr d
unfolding put_desc
put_desc-writes d k = refl

-- A batch writes the descriptors that the ring has room for, in successive slots, and no other.
pub put_descs-writes :
    (descs : List DmaDesc) (k : Kernel)
    → IsRing k
    → (put_descs descs k).writes
      ≡ k.writes ++ ring_writes k.dma_ring_wr_ptr (take (1023 - k.dma_ring_wr_ptr) descs)
unfolding put_descs ring_writes
put_descs-writes [] k h = rw (take-nil {0} (1023 - k.dma_ring_wr_ptr)) (sym (append-nil k.writes))
put_descs-writes (d ∷ descs) k h = elim (Bool-cases (ring_full k)) [
  | inl full ↦
      let at_end = sym (ring_full-wr k h) ∙ full in
      let none_left : 1023 - k.dma_ring_wr_ptr ≡ 0 = grind arith in
      rw (full, put_descs, none_left) (sym (append-nil k.writes))
  | inr room ↦
      let one = put_desc-IsRing d k h room in
      let rest = put_descs-writes descs (put_desc d k) one.0 in
      let before = sym (ring_full-wr k h) ∙ room in
      let left : 1023 - k.dma_ring_wr_ptr ≡ suc (1023 - (k.dma_ring_wr_ptr + 1)) = grind arith in
      let slots = take (1023 - (k.dma_ring_wr_ptr + 1)) descs in
      rw (room, put_descs, left)
        (rest
          ∙ rw (one.1, put_desc-writes d k)
              (append_assoc k.writes (desc_writes k.dma_ring_wr_ptr d)
                (ring_writes (k.dma_ring_wr_ptr + 1) slots)))
]

-- The descriptors that an ioctl hands over: those of a batch that is accepted.
unfoldable pub submitted : Ioctl → Bool → List DmaDesc
submitted (dma_batch none memory descs) mapped = []
submitted (dma_batch (some batch) memory none) mapped = []
submitted (dma_batch (some batch) memory (some descs)) mapped =
    if not (ltb 4096 batch.count) && (memory && mapped) then descs else []
submitted (prefetch req memory tokens status) mapped = []
submitted (set_param p) mapped = []
submitted (poll_done done copied) mapped = []
submitted other mapped = []

unfoldable pub submitted_all : List Ioctl → Bool → ℕ
unfolding submitted
submitted_all [] mapped = 0
submitted_all (c ∷ calls) mapped = length (submitted c mapped) + submitted_all calls mapped

put_descs-mapped : (descs : List DmaDesc) (k : Kernel) → (put_descs descs k).mapped ≡ k.mapped
unfolding put_descs put_desc
put_descs-mapped [] k = refl
put_descs-mapped (d ∷ descs) k = elim (Bool-cases (ring_full k)) [
  | inl full ↦ rw (full, put_descs) refl
  | inr room ↦ rw (room, put_descs) (put_descs-mapped descs (put_desc d k))
]

-- The module after `n` descriptors were handed over.
abbrev pub Moved : ℕ → Kernel → Kernel → Type 0
Moved n k after =
    IsRing after
    × (after.dma_ring_wr_ptr ≡ min 1023 (k.dma_ring_wr_ptr + n))
    × (after.mapped ≡ k.mapped)

pub ioctl-Moved :
    (c : Ioctl) (k : Kernel)
    → IsRing k
    → Moved (length (submitted c k.mapped)) k (speckv_ioctl c k).0
unfolding write_all speckv_ioctl handle_dma_batch handle_prefetch handle_set_param handle_poll_done
    submitted
ioctl-Moved (dma_batch none memory descs) k h = (h, omega arith, refl)
ioctl-Moved (dma_batch (some batch) memory none) k h = ground arith
ioctl-Moved (dma_batch (some batch) memory (some descs)) k h =
    ground (arith, put_descs-wr descs k h, put_descs-mapped descs k)
ioctl-Moved (prefetch none memory tokens status) k h = ground arith
ioctl-Moved (prefetch (some req) memory tokens status) k h = ground arith
ioctl-Moved (set_param none) k h = ground arith
ioctl-Moved (set_param (some p)) k h = ground arith
ioctl-Moved (poll_done done copied) k h = ground arith
ioctl-Moved other k h = ground arith

run-Moved :
    (calls : List Ioctl) (k : Kernel)
    → IsRing k
    → Moved (submitted_all calls k.mapped) k (run calls k)
unfolding run submitted_all
run-Moved [] k h = (h, omega arith, refl)
run-Moved (c ∷ calls) k h =
    let one = ioctl-Moved c k h in
    let rest = run-Moved calls (speckv_ioctl c k).0 one.0 in
    let same : submitted_all calls (speckv_ioctl c k).0.mapped ≡ submitted_all calls k.mapped =
      ap (submitted_all calls) one.2 in
    (rest.0, omega (arith, rest.1, one.1, same), rest.2 ∙ one.2)

-- Over any sequence of ioctls on a ring whose read pointer is 0, as it is after loading, the write
-- pointer advances by one for each descriptor of an accepted batch, up to 1023, and stays there.
pub run-dma_ring_wr_ptr :
    (calls : List Ioctl) (k : Kernel)
    → IsRing k
    → (run calls k).dma_ring_wr_ptr ≡ min 1023 (k.dma_ring_wr_ptr + submitted_all calls k.mapped)
run-dma_ring_wr_ptr calls k h = (run-Moved calls k h).1

-- Once any sequence of ioctls, on a mapped ring whose read pointer is 0, has handed over 1023
-- descriptors, a further batch that is accepted answers 0 and changes nothing: its descriptors are
-- dropped.
pub run-drops :
    (calls : List Ioctl) (k : Kernel) (batch : DmaBatch) (descs : List DmaDesc)
    → IsRing k
    → k.mapped ≡ true
    → 1023 ≤ k.dma_ring_wr_ptr + submitted_all calls k.mapped
    → batch.count ≤ 4096
    → handle_dma_batch (some batch) true (some descs) (run calls k) ≡ (run calls k, none)
unfolding handle_dma_batch
run-drops calls k batch descs h mapped enough small =
    let after = run-Moved calls k h in
    let dropped = put_descs-full descs (run calls k) after.0 (omega (arith, after.1)) in
    ground (arith, dropped, after.2)
