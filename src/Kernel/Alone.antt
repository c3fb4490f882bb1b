-- ===== src/Kernel/Alone.antt =====
-- An ioctl whose thread is not interrupted (driver/speckv_kernel_module.c).
use cxl_spec_kv.Common.{
  ℕ, zero, suc, ◌+◌, ◌-◌, ◌*◌, ◌≡◌, ◌≤◌, refl, true, false, List, [], ◌∷◌, none, some, ◌%◌, length,
  length-append, arith, Bool-cases, inl, inr, ◌∙◌, ap,
}
use mathlib.Core.List.{append_assoc, append-nil}
use cxl_spec_kv.Common.Words.{u32_mod}
use cxl_spec_kv.Kernel.Types.{
  DmaDesc, PrefetchReq, Write, Kernel, write_all, iowrite32, reg_prefetch_status,
  reg_param_prefetch_k, reg_param_comp_scheme, reg_dma_complete,
}
use cxl_spec_kv.Kernel.Handlers.{
  next_wr, ring_full, put_desc, put_descs, desc_writes, token_writes, header_writes, request_writes,
  Ioctl, dma_batch, prefetch, set_param, poll_done, other, speckv_ioctl, handle_dma_batch,
  handle_prefetch, handle_set_param, handle_poll_done,
}
use cxl_spec_kv.Kernel.Threads.{
  Phase, arriving, checking, addressing, sending, subtracting, ended, arrive, advance, advance_all,
  field_writes, turns,
}

pub advance_all-ended : (n : ℕ) (k : Kernel) → advance_all n ended k ≡ (k, ended)
unfolding advance_all
advance_all-ended zero k = refl
advance_all-ended (suc n) k = advance_all-ended n k

pub check-room :
    (d : DmaDesc) (rest : List DmaDesc) (k : Kernel)
    → ring_full k ≡ false
    → advance (checking (d ∷ rest)) k ≡ (k, addressing (next_wr k) d rest)
unfolding advance
check-room d rest k room = ground arith

check-full :
    (d : DmaDesc) (rest : List DmaDesc) (k : Kernel)
    → ring_full k ≡ true
    → advance (checking (d ∷ rest)) k ≡ (k, ended)
unfolding advance
check-full d rest k full = ground arith

-- The eight turns after a check that found room.
addressing-put_desc :
    (d : DmaDesc) (rest : List DmaDesc) (k : Kernel)
    → advance_all 8 (addressing (next_wr k) d rest) k ≡ (put_desc d k, checking rest)
unfolding advance advance_all field_writes write_all put_desc desc_writes next_wr
addressing-put_desc d rest k = simp append_assoc

advance_all-suc :
    (n : ℕ) (p : Phase) (k : Kernel)
    → advance_all (suc n) p k ≡ advance_all n (advance p k).1 (advance p k).0
unfolding advance_all
advance_all-suc n p k = refl

advance_all-add :
    (i j : ℕ) (p : Phase) (k : Kernel)
    → advance_all (i + j) p k ≡ advance_all j (advance_all i p k).1 (advance_all i p k).0
unfolding advance_all
advance_all-add zero j p k = let e : 0 + j ≡ j = omega arith in rw e refl
advance_all-add (suc i) j p k =
    let e : suc i + j ≡ suc (i + j) = omega arith in
    ap (λ (n : ℕ). advance_all n p k) e
    ∙ (advance_all-suc (i + j) p k ∙ advance_all-add i j (advance p k).1 (advance p k).0)

one_desc :
    (n : ℕ) (d : DmaDesc) (rest : List DmaDesc) (k : Kernel)
    → ring_full k ≡ false
    → advance_all (9 + n) (checking (d ∷ rest)) k ≡ advance_all n (checking rest) (put_desc d k)
one_desc n d rest k room =
    let e : 9 + n ≡ suc (8 + n) = omega arith in
    ap (λ (i : ℕ). advance_all i (checking (d ∷ rest)) k) e
    ∙ rw
        (
          advance_all-suc (8 + n) (checking (d ∷ rest)) k,
          check-room d rest k room,
          advance_all-add 8 n (addressing (next_wr k) d rest) k,
          addressing-put_desc d rest k,
        )
        refl

-- A thread that is at the check of the ring with some descriptors left, and takes nine turns for
-- each and one more with no other thread between them, leaves the handler with the module as the loop
-- of the handler leaves it.
advance_all-put_descs :
    (descs : List DmaDesc) (n : ℕ) (k : Kernel)
    → length descs * 9 + 1 ≤ n
    → advance_all n (checking descs) k ≡ (put_descs descs k, ended)
unfolding put_descs advance_all advance
advance_all-put_descs descs zero k enough = absurd (omega arith)
advance_all-put_descs [] (suc n) k enough = advance_all-ended n k
advance_all-put_descs (d ∷ descs) (suc n) k enough = elim (Bool-cases (ring_full k)) [
  | inl full ↦
      rw (full, advance_all-suc n (checking (d ∷ descs)) k, check-full d descs k full, put_descs)
        (advance_all-ended n k)
  | inr room ↦
      let left : suc n ≡ 9 + (suc n - 9) = omega arith in
      let rest = advance_all-put_descs descs (suc n - 9) (put_desc d k) (omega arith) in
      rw (room, put_descs)
        (ap (λ (i : ℕ). advance_all i (checking (d ∷ descs)) k) left
          ∙ (one_desc (suc n - 9) d descs k room ∙ rest))
]

length-token_writes : (i : ℕ) (tokens : List ℕ) → length (token_writes i tokens) ≡ length tokens
unfolding token_writes
length-token_writes i [] = refl
length-token_writes i (t ∷ tokens) = ap suc (length-token_writes (i + 1) tokens)

pub length-request_writes :
    (req : PrefetchReq) (tokens : List ℕ) → length (request_writes req tokens) ≡ length tokens + 6
unfolding request_writes header_writes
length-request_writes req tokens = omega (
  arith,
  length-token_writes 0 tokens,
  length-append (token_writes 0 tokens) (iowrite32 1 reg_prefetch_status ∷ []),
)

pub turns-positive : (c : Ioctl) → 1 ≤ turns c
unfolding turns
turns-positive (dma_batch batch memory none) = omega arith
turns-positive (dma_batch batch memory (some descs)) = omega arith
turns-positive (prefetch req memory none status) = omega arith
turns-positive (prefetch req memory (some tokens) status) = omega arith
turns-positive (set_param p) = omega arith
turns-positive (poll_done done copied) = omega arith
turns-positive other = omega arith

advance_all-subtracting :
    (done n : ℕ) (k : Kernel)
    → 2 ≤ n
    → advance_all n (subtracting done) k ≡ (
      record (write_all (iowrite32 0 reg_dma_complete ∷ []) k) {
        dma_pending = (k.dma_pending + u32_mod - done) % u32_mod;
      },
      ended,
    )
unfolding advance_all advance write_all
advance_all-subtracting done zero k enough = absurd (omega arith)
advance_all-subtracting done (suc zero) k enough = absurd (omega arith)
advance_all-subtracting done (suc (suc n)) k enough = advance_all-ended n _

advance_all-sending :
    (ws : List Write) (n : ℕ) (k : Kernel)
    → length ws + 1 ≤ n
    → advance_all n (sending ws) k ≡ (write_all ws k, ended)
unfolding write_all advance advance_all
advance_all-sending ws zero k enough = absurd (omega arith)
advance_all-sending [] (suc n) k enough = advance_all-ended n k ∙ simp append-nil
advance_all-sending (w ∷ ws) (suc n) k enough =
    advance_all-sending ws n (write_all (w ∷ []) k) (omega arith) ∙ simp append_assoc

advance_all-arrive :
    (c : Ioctl) (n : ℕ) (k : Kernel)
    → turns c ≤ n + 1
    → advance_all n (arrive c k.mapped) k ≡ ((speckv_ioctl c k).0, ended)
unfolding arrive turns speckv_ioctl handle_dma_batch handle_prefetch handle_set_param
    handle_poll_done
advance_all-arrive (dma_batch none memory descs) n k enough = advance_all-ended n k
advance_all-arrive (dma_batch (some batch) memory none) n k enough =
    ground (arith, advance_all-ended n k)
advance_all-arrive (dma_batch (some batch) memory (some descs)) n k enough =
    ground (arith, advance_all-ended n k, advance_all-put_descs descs n k (omega arith))
advance_all-arrive (prefetch none memory tokens status) n k enough = advance_all-ended n k
advance_all-arrive (prefetch (some req) memory none status) n k enough =
    ground (arith, advance_all-ended n k)
advance_all-arrive (prefetch (some req) memory (some tokens) status) n k enough =
    let fits = length-request_writes req tokens in
    ground (
      arith,
      advance_all-ended n k,
      advance_all-sending (request_writes req tokens) n k (omega (arith, fits, enough)),
    )
advance_all-arrive (set_param none) n k enough = advance_all-ended n k
advance_all-arrive (set_param (some p)) n k enough = ground (
  arith,
  advance_all-ended n k,
  advance_all-sending (iowrite32 p.value reg_param_prefetch_k ∷ []) n k (omega arith),
  advance_all-sending (iowrite32 p.value reg_param_comp_scheme ∷ []) n k (omega arith),
)
advance_all-arrive (poll_done done copied) n k enough =
    ground (arith, advance_all-ended n k, advance_all-subtracting done n k (omega arith))
advance_all-arrive other n k enough = advance_all-ended n k

-- An ioctl whose thread takes all its turns with no other thread between them leaves the module as
-- the call does, and the thread has left the handler.
pub advance_all-speckv_ioctl :
    (c : Ioctl) (n : ℕ) (k : Kernel)
    → turns c ≤ n
    → advance_all n (arriving c) k ≡ ((speckv_ioctl c k).0, ended)
unfolding advance_all advance
advance_all-speckv_ioctl c zero k enough = absurd (ground (arith, turns-positive c))
advance_all-speckv_ioctl c (suc n) k enough = advance_all-arrive c n k (omega arith)
