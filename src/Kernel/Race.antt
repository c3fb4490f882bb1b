-- ===== src/Kernel/Race.antt =====
-- Ioctls of several threads (driver/speckv_kernel_module.c): what every order of turns keeps, and what it may lose.
use cxl_spec_kv.Common.{
  ℕ, zero, suc, ◌+◌, ◌%◌, Bool, ◌≡◌, ◌<◌, ◌≤◌, refl, true, false, List, [], ◌∷◌, ◌++◌, Option, none,
  some, get_elem?, arith, Bool-cases, inl, inr, sym, subst, ◌∙◌,
}
use mathlib.Core.List.{append_assoc}
use cxl_spec_kv.Common.Words.{u32_mod}
use cxl_spec_kv.Common.Tables.{Every, Every-set, Every-get}
use cxl_spec_kv.Kernel.Types.{
  DmaDesc, DmaBatch, Write, Kernel, write_all, iowrite32, reg_dma_ring_wr, reg_dma_complete,
}
use cxl_spec_kv.Kernel.Handlers.{
  next_wr, ring_full, Ioctl, dma_batch, prefetch, set_param, poll_done, other,
}
use cxl_spec_kv.Kernel.Bounds.{
  all_inside, all_inside-request_writes, IsInside, write_all-IsInside, small, all_small,
}
use cxl_spec_kv.Kernel.Alone.{check-room}
use cxl_spec_kv.Kernel.Serial.{enter}
use cxl_spec_kv.Kernel.Threads.{
  Phase, arriving, checking, addressing, writing, telling, counting, sending, subtracting, clearing,
  ended, arrive, advance, field_writes, Machine, turn, play,
}

-- What a thread keeps may be stored and written.
abbrev Fits : Phase → Type 0
Fits (addressing next d rest) = next < 1024
Fits (writing next ws rest) = (next < 1024) × (all_inside ws ≡ true)
Fits (arriving c) = small c ≡ true
Fits (sending ws) = all_inside ws ≡ true
Fits _ = Unit

field_writes-all_inside :
    (slot : ℕ) (d : DmaDesc) → slot < 1024 → all_inside (field_writes slot d) ≡ true
unfolding field_writes all_inside
field_writes-all_inside slot d h = grind arith

arrive-Fits : (c : Ioctl) (mapped : Bool) → small c ≡ true → Fits (arrive c mapped)
unfolding arrive small all_inside
arrive-Fits (dma_batch none memory descs) m s = tt
arrive-Fits (dma_batch (some batch) memory none) m s = tt
arrive-Fits (dma_batch (some batch) memory (some descs)) m s = ground arith
arrive-Fits (prefetch none memory tokens status) m s = tt
arrive-Fits (prefetch (some req) memory none status) m s = tt
arrive-Fits (prefetch (some req) memory (some tokens) status) m s =
    let fits = all_inside-request_writes req tokens ∙ s in ground arith
arrive-Fits (set_param none) m s = tt
arrive-Fits (set_param (some p)) m s = ground arith
arrive-Fits (poll_done done copied) m s = ground arith
arrive-Fits other m s = tt

advance-Fits :
    (p : Phase) (k : Kernel) → Fits p → IsInside k → IsInside (advance p k).0 × Fits (advance p k).1
unfolding advance next_wr all_inside
advance-Fits (checking []) k f h = (h, tt)
advance-Fits (checking (d ∷ rest)) k f h = elim (Bool-cases (ring_full k)) [
  | inl full ↦ rw (full, advance) (h, tt)
  | inr room ↦ rw (room, advance) (h, omega arith)
]
advance-Fits (addressing next d rest) k f h =
    (h, (f, field_writes-all_inside k.dma_ring_wr_ptr d (h.1)))
advance-Fits (writing next [] rest) k f h = ((h.0, f.0), tt)
advance-Fits (writing next (w ∷ ws) rest) k f h =
    (write_all-IsInside (w ∷ []) k (ground (arith, f)) h, (f.0, ground (arith, f)))
advance-Fits (telling rest) k f h =
    (write_all-IsInside (iowrite32 k.dma_ring_wr_ptr 8 ∷ []) k refl h, tt)
advance-Fits (counting rest) k f h = (h, tt)
advance-Fits (arriving c) k f h = (h, arrive-Fits c k.mapped f)
advance-Fits (sending []) k f h = (h, tt)
advance-Fits (sending (w ∷ ws)) k f h =
    (write_all-IsInside (w ∷ []) k (ground (arith, f)) h, ground (arith, f))
advance-Fits (subtracting done) k f h = (h, tt)
advance-Fits clearing k f h = (write_all-IsInside (iowrite32 0 reg_dma_complete ∷ []) k refl h, tt)
advance-Fits ended k f h = (h, tt)

turn-found :
    (i : ℕ) (s : Machine) (found : Option Phase)
    → get_elem? s.threads i ≡ found
    → IsInside s.kernel
    → Every Fits s.threads
    → IsInside (turn i s).kernel × Every Fits (turn i s).threads
unfolding turn
turn-found i s none e h f = rw (e, turn) (h, f)
turn-found i s (some p) e h f =
    let (inside, fits) = advance-Fits p s.kernel (Every-get Fits s.threads i p e f) h in
    rw (e, turn) (inside, Every-set Fits s.threads i (advance p s.kernel).1 fits f)

play-Fits :
    (schedule : List ℕ) (s : Machine)
    → IsInside s.kernel
    → Every Fits s.threads
    → IsInside (play schedule s).kernel
unfolding play
play-Fits [] s h f = h
play-Fits (i ∷ schedule) s h f =
    let (inside, fits) = turn-found i s (get_elem? s.threads i) refl h f in
    play-Fits schedule (turn i s) inside fits

enter-Fits : (calls : List Ioctl) → all_small calls ≡ true → Every Fits (enter calls)
unfolding all_small
enter-Fits [] e = tt
enter-Fits (c ∷ calls) e = (ground arith, enter-Fits calls (ground arith))

-- From a start with all writes inside the mapped region and the write pointer inside the ring of
-- 1024 slots, any number of threads that each make an ioctl keep them there in whatever order they
-- take their turns, if no prefetch request carries more than 32755 tokens.
pub play-IsInside :
    (schedule : List ℕ) (calls : List Ioctl) (k : Kernel)
    → all_small calls ≡ true
    → IsInside k
    → IsInside (play schedule (record { kernel = k; threads = enter calls })).kernel
play-IsInside schedule calls k e h =
    play-Fits schedule (record { kernel = k; threads = enter calls }) h (enter-Fits calls e)

-- The two threads take turns.
abbrev pub in_step : ℕ → List ℕ
in_step zero = []
in_step (suc n) = 0 ∷ 1 ∷ in_step n

-- The writes of two threads that take turns.
abbrev pub alternate : List Write → List Write → List Write
alternate [] ws = ws
alternate (v ∷ vs) [] = v ∷ vs
alternate (v ∷ vs) (w ∷ ws) = v ∷ w ∷ alternate vs ws

-- A batch of one descriptor, which is copied.
abbrev pub hand_over : DmaDesc → DmaBatch → Ioctl
hand_over d batch = dma_batch (some batch) true (some (d ∷ []))

-- Two threads before and after the check of the ring.
abbrev pub two_batches : Ioctl → Ioctl → Kernel → Machine
two_batches b c k = record { kernel = k; threads = enter (b ∷ c ∷ []) }

abbrev both_arrived : DmaDesc → DmaDesc → Kernel → Machine
both_arrived d e k = record { kernel = k; threads = checking (d ∷ []) ∷ checking (e ∷ []) ∷ [] }

abbrev both_checked : DmaDesc → DmaDesc → Kernel → Machine
both_checked d e k = record {
  kernel = k;
  threads = addressing (next_wr k) d [] ∷ addressing (next_wr k) e [] ∷ [];
}

arrive-hand_over :
    (d : DmaDesc) (batch : DmaBatch)
    → batch.count ≤ 4096
    → arrive (hand_over d batch) true ≡ checking (d ∷ [])
unfolding arrive
arrive-hand_over d batch h = ground arith

arrive_both :
    (schedule : List ℕ) (d e : DmaDesc) (b c : DmaBatch) (k : Kernel)
    → b.count ≤ 4096
    → c.count ≤ 4096
    → k.mapped ≡ true
    → play (0 ∷ 1 ∷ schedule) (two_batches (hand_over d b) (hand_over e c) k)
      ≡ play schedule (both_arrived d e k)
unfolding play turn advance
arrive_both schedule d e b c k hb hc mapped =
    rw (mapped, arrive-hand_over d b hb, arrive-hand_over e c hc) refl

check_both :
    (schedule : List ℕ) (d e : DmaDesc) (k : Kernel)
    → ring_full k ≡ false
    → play (0 ∷ 1 ∷ schedule) (both_arrived d e k) ≡ play schedule (both_checked d e k)
unfolding play turn
check_both schedule d e k room = rw (check-room d [] k room, check-room e [] k room) refl

-- What two threads leave that each read the write pointer before the other stored it.
abbrev pub Lost : DmaDesc → DmaDesc → Kernel → Machine → Type 0
Lost d e k s =
    (s.threads ≡ ended ∷ ended ∷ [])
    × (s.kernel.dma_ring_wr_ptr ≡ next_wr k)
    × (s.kernel.dma_pending ≡ (k.dma_pending + 2) % u32_mod)
    × (s.kernel.writes
        ≡ k.writes
          ++ (alternate (field_writes k.dma_ring_wr_ptr d) (field_writes k.dma_ring_wr_ptr e)
              ++ (iowrite32 (next_wr k) reg_dma_ring_wr
                  ∷ iowrite32 (next_wr k) reg_dma_ring_wr
                  ∷ [])))

both_checked-Lost :
    (d e : DmaDesc) (k : Kernel) → Lost d e k (play (in_step 9) (both_checked d e k))
unfolding play turn advance field_writes write_all
both_checked-Lost d e k = (refl, refl, omega arith, simp append_assoc)

-- On a mapped region and a ring that is not full, two threads that each hand over a batch of one
-- descriptor and take turns both leave the handler after eleven turns each, and both descriptors are
-- counted as pending, but the write pointer has advanced by one slot only: both wrote their
-- descriptors to the same slot.
pub play-Lost :
    (d e : DmaDesc) (b c : DmaBatch) (k : Kernel)
    → b.count ≤ 4096
    → c.count ≤ 4096
    → k.mapped ≡ true
    → ring_full k ≡ false
    → Lost d e k (play (in_step 11) (two_batches (hand_over d b) (hand_over e c) k))
play-Lost d e b c k hb hc mapped room =
    subst (Lost d e k)
      (sym (arrive_both (in_step 10) d e b c k hb hc mapped ∙ check_both (in_step 9) d e k room))
      (both_checked-Lost d e k)
