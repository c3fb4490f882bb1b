-- ===== src/Kernel/Registers.antt =====
-- What the registers of the FPGA hold after the writes of the kernel module, and what the module
-- does on an error (driver/speckv_kernel_module.c).
use Prim.Native.Nat.{bit_and}
use cxl_spec_kv.Common.{
  ℕ, ◌+◌, ◌*◌, ◌≡◌, ◌<◌, refl, Bool, true, false, not, ◌&&◌, List, [], ◌∷◌, ◌++◌, Option, none,
  some, if◌then◌else◌, ◌==◌, ltb, arith, ◌∙◌,
}
use cxl_spec_kv.Kernel.Types.{
  PrefetchReq, Write, Kernel, Errno, write_all, iowrite32, reg_prefetch_status,
  reg_param_prefetch_k, reg_param_comp_scheme,
}
use cxl_spec_kv.Kernel.Handlers.{
  handle_dma_batch, handle_prefetch, handle_set_param, handle_poll_done, token_writes,
  header_writes, request_writes, Ioctl, dma_batch, prefetch, set_param, poll_done, other,
  speckv_ioctl,
}

or_else : Option ℕ → Option ℕ → Option ℕ
or_else none o = o
or_else (some v) o = some v

-- The value of the last write at an offset.
unfoldable pub register : ℕ → List Write → Option ℕ
unfolding or_else
register r [] = none
register r (w ∷ ws) = or_else (register r ws) (if w.offset == r then some w.value else none)

register-append :
    (r : ℕ) (xs ys : List Write) → register r (xs ++ ys) ≡ or_else (register r ys) (register r xs)
unfolding register or_else
register-append r [] ys = ground arith
register-append r (x ∷ xs) ys = ground (arith, register-append r xs ys)

register-token_writes :
    (r i : ℕ) (tokens : List ℕ) → r < 52 + i * 4 → register r (token_writes i tokens) ≡ none
unfolding register token_writes or_else
register-token_writes r i [] h = refl
register-token_writes r i (t ∷ tokens) h =
    ground (arith, register-token_writes r (i + 1) tokens (omega arith))

-- From the third token on, a request writes beyond the parameters.
register-later_tokens :
    (r : ℕ) (tokens : List ℕ)
    → r < 60
    → (reg_prefetch_status == r) ≡ false
    → register r (token_writes 2 tokens ++ iowrite32 1 reg_prefetch_status ∷ []) ≡ none
unfolding register or_else
register-later_tokens r tokens h differs =
    register-append r (token_writes 2 tokens) (iowrite32 1 reg_prefetch_status ∷ [])
    ∙ rw (differs, register-token_writes r 2 tokens (omega arith)) refl

-- A prefetch request of two tokens or more that is accepted leaves its history length in the
-- register of the prefetch depth and its second token in the register of the compression scheme,
-- whatever was set there.
pub handle_prefetch-registers :
    (req : PrefetchReq) (t u : ℕ) (tokens : List ℕ) (status : ℕ) (k : Kernel)
    → k.mapped ≡ true
    → bit_and status 0x80000000 ≡ 0
    → (register reg_param_prefetch_k
          (handle_prefetch (some req) true (some (t ∷ u ∷ tokens)) status k).0.writes
        ≡ some req.history_len)
      × (register reg_param_comp_scheme
            (handle_prefetch (some req) true (some (t ∷ u ∷ tokens)) status k).0.writes
          ≡ some u)
unfolding handle_prefetch write_all request_writes header_writes token_writes register or_else
handle_prefetch-registers req t u tokens status k mapped room =
    let accepted : not (bit_and status 0x80000000 == 0) ≡ false = ground arith in
    let writes = request_writes req (t ∷ u ∷ tokens) in
    (
      rw (mapped, accepted)
          (register-append reg_param_prefetch_k k.writes writes
            ∙ rw (register-later_tokens reg_param_prefetch_k tokens (omega arith) refl) refl),
      rw (mapped, accepted)
          (register-append reg_param_comp_scheme k.writes writes
            ∙ rw (register-later_tokens reg_param_comp_scheme tokens (omega arith) refl) refl),
    )

-- A poll whose answer the user does not get, after the completion register was cleared.
unfoldable pub loses : Ioctl → Bool
loses (dma_batch batch memory descs) = false
loses (prefetch req memory tokens status) = false
loses (set_param p) = false
loses (poll_done done copied) = ltb 0 done && not copied
loses other = false

-- An ioctl that returns an error leaves the module and the FPGA as they were, except for a poll
-- that has cleared a count of completions and cannot give it to the user.
pub speckv_ioctl_error :
    (c : Ioctl) (k : Kernel) {e : Errno}
    → (speckv_ioctl c k).1 ≡ some e
    → loses c ≡ false
    → (speckv_ioctl c k).0 ≡ k
unfolding loses speckv_ioctl handle_dma_batch handle_prefetch handle_set_param handle_poll_done
speckv_ioctl_error (dma_batch none memory descs) k h s = refl
speckv_ioctl_error (dma_batch (some batch) memory none) k h s = ground arith
speckv_ioctl_error (dma_batch (some batch) memory (some descs)) k h s = ground arith
speckv_ioctl_error (prefetch none memory tokens status) k h s = refl
speckv_ioctl_error (prefetch (some req) memory tokens status) k h s = ground arith
speckv_ioctl_error (set_param none) k h s = refl
speckv_ioctl_error (set_param (some p)) k h s = ground arith
speckv_ioctl_error (poll_done done copied) k h s = ground arith
speckv_ioctl_error other k h s = refl
