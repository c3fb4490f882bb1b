-- ===== src/Host/Machine.antt =====
-- `access` of `SpeckvAllocator` (host/src/speckv_allocator.cpp) over `SpeckvDriver`
-- (host/src/speckv_driver.cpp) and the kernel module, in place of a driver whose answers are given.
-- What the kernel answers is an argument.
use Prim.Native.Nat.{bit_or}
use cxl_spec_kv.Common.{
  ℕ, zero, suc, ◌+◌, ◌%◌, ◌≡◌, ◌⊎◌, inl, inr, refl, Bool, true, false, not, ◌&&◌, ◌||◌, ◌∙◌, [],
  ◌∷◌, Option, none, some, ◌==◌, if◌then◌else◌, min, arith, Bool-cases,
}
use cxl_spec_kv.Common.Words.{add64}
use cxl_spec_kv.Common.Assoc.{lookup, insert}
use cxl_spec_kv.Kernel.Handlers.{
  dma_batch, poll_done, speckv_ioctl, handle_poll_done, handle_dma_batch,
}
use cxl_spec_kv.Kernel.Ring.{IsRing, ioctl-Moved, submitted}
use cxl_spec_kv.Host.Allocator.{
  SpeckvAllocator, page_at, is_in_l1_or_l2, fetch_desc, wait_complete, SpeckvDmaDesc,
}
use cxl_spec_kv.Host.Driver.{
  SpeckvDriver, submit_dma_batch, poll_complete, ioctl, status_of, ioctl_desc, copy_of,
}

pub record HostMachine : Type 0 where
  pub library : SpeckvAllocator
  pub driver : SpeckvDriver

-- What the kernel answers during an access: whether it can read what it is handed and has memory for
-- the copy, and at each poll what its completion register reads and whether it can store that.
pub record KernelAnswers : Type 0 where
  pub readable : Bool
  pub memory : Bool
  pub reads : ℕ → ℕ
  pub writable : ℕ → Bool

-- `while (driver_->poll_complete() == 0)` from poll `i` on; `none` if it still waits after `fuel`
-- polls.
unfoldable pub wait_on : ℕ → KernelAnswers → ℕ → SpeckvDriver → Option SpeckvDriver
wait_on zero answer i driver = none
wait_on (suc fuel) answer i driver =
    let (polled, ret) = poll_complete (answer.reads i) (answer.writable i) driver in
    elim (ret == 0) [ true ↦ wait_on fuel answer (i + 1) polled | false ↦ some polled ]

-- `descs_ptr` is where the descriptor lies.
unfoldable pub fetch_on : ℕ → ℕ → KernelAnswers → ℕ → HostMachine → Option HostMachine
unfolding wait_on
fetch_on descs_ptr fuel answer virt_page_id s = elim (lookup virt_page_id s.library.page_table) [
  | none ↦ some s
  | some page ↦
      let desc = fetch_desc virt_page_id page in
      let (submitted, _) =
        submit_dma_batch descs_ptr answer.readable answer.memory (desc ∷ []) s.driver in
      elim (wait_on fuel answer 0 submitted) [
        | none ↦ none
        | some waited ↦ some (record {
          library = record s.library {
            submitted = desc ∷ s.library.submitted;
            page_table =
                insert virt_page_id (record page { flags = bit_or page.flags 2 })
                  s.library.page_table;
          };
          driver = waited;
        })
      ]
]

unfoldable pub access_on :
    ℕ → ℕ → KernelAnswers → ℕ → ℕ → HostMachine → Option (HostMachine × Option ℕ)
unfolding fetch_on
access_on descs_ptr fuel answer handle offset s = elim (page_at handle offset s.library) [
  | none ↦ some (s, none)
  | some page ↦
      elim (if is_in_l1_or_l2 page.virt_page_id s.library
        then some s
        else fetch_on descs_ptr fuel answer page.virt_page_id s) [
          | none ↦ none
          | some fetched ↦ some (fetched, some (add64 page.phys_page_id (offset % 4096)))
        ]
]

-- The device is open, the region mapped and the ring as it is after loading.
abbrev pub IsOpen : SpeckvDriver → Type 0
IsOpen d = (d.ok ≡ true) × (d.kernel.mapped ≡ true) × IsRing d.kernel

-- An open driver whose write pointer has moved by `n`, up to the end of the ring.
abbrev pub Advanced : ℕ → SpeckvDriver → SpeckvDriver → Type 0
Advanced n d e = IsOpen e × (e.kernel.dma_ring_wr_ptr ≡ min 1023 (d.kernel.dma_ring_wr_ptr + n))

-- A poll does not answer 0: a transfer is complete, or the poll fails.
unfoldable pub answers : KernelAnswers → ℕ → Bool
answers answer i = not (answer.reads i == 0) || not (answer.writable i)

-- So many descriptors, if the kernel takes them.
unfoldable pub taken : KernelAnswers → ℕ → ℕ
taken answer n = if answer.readable && answer.memory then n else 0

poll_complete-Advanced :
    (done : ℕ) (writable : Bool) (d : SpeckvDriver)
    → IsOpen d
    → Advanced 0 d (poll_complete done writable d).0
      × (((poll_complete done writable d).1 == 0) ≡ ((done == 0) && writable))
unfolding poll_complete ioctl speckv_ioctl handle_poll_done submitted
poll_complete-Advanced done writable d (ok, mapped, ring) =
    let moved = ioctl-Moved (poll_done done writable) d.kernel ring in
    (
      (
        (ground (arith, moved), ground (arith, moved), ground (arith, moved)),
        ground (arith, moved),
      ),
      ground arith,
    )

pub submit-Advanced :
    (ptr : ℕ) (answer : KernelAnswers) (desc : SpeckvDmaDesc) (d : SpeckvDriver)
    → IsOpen d
    → Advanced
        (taken answer 1)
        d
        (submit_dma_batch ptr answer.readable answer.memory (desc ∷ []) d).0
unfolding submit_dma_batch ioctl status_of speckv_ioctl handle_dma_batch submitted taken
submit-Advanced ptr answer desc d (ok, mapped, ring) =
    let request =
      dma_batch (copy_of answer.readable (record { user_ptr = ptr; count = 1; reserved = 0 }))
        answer.memory (copy_of answer.readable (ioctl_desc desc ∷ [])) in
    let moved = ioctl-Moved request d.kernel ring in
    ((ground (arith, moved), ground (arith, moved), ground (arith, moved)), ground (arith, moved))

-- A wait that ends, or does not.
pub wait_on-Advanced :
    (fuel : ℕ) (answer : KernelAnswers) (i : ℕ) (d : SpeckvDriver)
    → IsOpen d
    → ((wait_on fuel answer i d ≡ none) × (wait_complete fuel (answers answer) i ≡ false))
      ⊎ ((e : SpeckvDriver) × (wait_on fuel answer i d ≡ some e)
          × (wait_complete fuel (answers answer) i ≡ true)
          × Advanced 0 d e)
unfolding wait_on wait_complete answers
wait_on-Advanced zero answer i d open_d = inl (refl, refl)
wait_on-Advanced (suc fuel) answer i d open_d =
    let (advanced, ret) = poll_complete-Advanced (answer.reads i) (answer.writable i) d open_d in
    let (polled, polls) = poll_complete (answer.reads i) (answer.writable i) d in
    elim (Bool-cases (answers answer i)) [
      | inl done ↦
          let stops : (polls == 0) ≡ false = ret ∙ ground (arith, done) in
          inr (polled, rw (stops, wait_on) refl, rw (done, wait_complete) refl, advanced)
      | inr still ↦
          let goes_on : (polls == 0) ≡ true = ret ∙ ground (arith, still) in
          elim (wait_on-Advanced fuel answer (i + 1) polled advanced.0) [
            | inl (stuck, waits) ↦
                inl (rw (goes_on, wait_on) stuck, rw (still, wait_complete) waits)
            | inr (e, ends, done, later) ↦ inr (
              e,
              rw (goes_on, wait_on) ends,
              rw (still, wait_complete) done,
              (later.0, omega (arith, later.1, advanced.1)),
            )
          ]
    ]
