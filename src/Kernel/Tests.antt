-- ===== src/Kernel/Tests.antt =====
-- Runs of the kernel module's model, and its theorems at concrete data.

use cxl_spec_kv.Common.{
  replicate, ◌++◌, ◌%◌, ℕ, ◌+◌, ◌≡◌, refl, true, false, List, [], ◌∷◌, none, some, if◌then◌else◌,
  arith, min, get_elem?,
}
use cxl_spec_kv.Kernel.Types.{
  DmaDesc, DmaBatch, PrefetchReq, Kernel, write_all, ebusy, reg_param_prefetch_k,
  reg_param_comp_scheme,
}
use cxl_spec_kv.Kernel.Handlers.{
  Ioctl, dma_batch, prefetch, poll_done, speckv_ioctl, handle_dma_batch, handle_prefetch,
  request_writes, run,
}
use cxl_spec_kv.Kernel.Load.{Answers, nothing_held, speckv_init}
use cxl_spec_kv.Kernel.Resources.{granted, loaded_with, speckv_init-held}
use cxl_spec_kv.Kernel.Ring.{submitted_all, run-dma_ring_wr_ptr, run-drops}
use cxl_spec_kv.Kernel.Bounds.{IsInside, all_inside, all_small}
use cxl_spec_kv.Kernel.Registers.{loses, register, handle_prefetch-registers, speckv_ioctl_error}
use cxl_spec_kv.Kernel.Threads.{ended, field_writes, advance, turn, play, turns}
use cxl_spec_kv.Kernel.Serial.{enter, serial, all_ended}
use cxl_spec_kv.Kernel.Counts.{play-serial-counts}
use cxl_spec_kv.Kernel.Race.{in_step, hand_over, two_batches, Lost, play-IsInside, play-Lost}
use cxl_spec_kv.Kernel.Pending.{all_completions, play-dma_pending}
use cxl_spec_kv.Kernel.Told.{told}
use cxl_spec_kv.Common.Words.{u32_mod}
use cxl_spec_kv.Kernel.Ends.{count, play-ended}
use cxl_spec_kv.Kernel.Handlers.{ring_full, next_wr}

-- A kernel that grants all but the device.
abbrev no_device : Answers
no_device = record {
  alloc_chrdev_region = true;
  cdev_add = true;
  class_create = true;
  device_create = false;
  request_mem_region = true;
  ioremap = true;
}

speckv_init-held_example :
    ((speckv_init no_device).2 ≡ granted no_device)
    × ((speckv_init no_device).0 ≡ (if granted no_device then loaded_with false else nothing_held))
    × ((speckv_init no_device).1.mapped ≡ granted no_device)
speckv_init-held_example = speckv_init-held no_device

abbrev loaded : Kernel
loaded = record {
  mapped = true;
  dma_ring_wr_ptr = 0;
  dma_ring_rd_ptr = 0;
  dma_pending = 0;
  writes = [];
}

abbrev desc : DmaDesc
desc = record { fpga_addr = 0x4000100000; gpu_addr = 0x8000000000; bytes = 4096; flags = 0 }

abbrev batch_of : ℕ → DmaBatch
batch_of n = record { user_ptr = 0x7000; count = n; reserved = 0 }

abbrev request : PrefetchReq
request = record {
  req_id = 7;
  layer = 3;
  reserved0 = 0;
  cur_pos = 40;
  depth_k = 4;
  history_len = 3;
  tokens_user_ptr = 0x9000;
}

-- Two batches, a prefetch and a poll.
abbrev calls : List Ioctl
calls =
    dma_batch (some (batch_of 2)) true (some (desc ∷ desc ∷ []))
    ∷ prefetch (some request) true (some (5 ∷ 6 ∷ 7 ∷ [])) 0
    ∷ poll_done 2 true
    ∷ dma_batch (some (batch_of 1)) true (some (desc ∷ []))
    ∷ []

run-dma_ring_wr_ptr_example :
    (run calls loaded).dma_ring_wr_ptr ≡ min 1023 (0 + submitted_all calls true)
run-dma_ring_wr_ptr_example = run-dma_ring_wr_ptr calls loaded (omega arith)

-- A ring that has one slot left.
abbrev nearly_full : Kernel
nearly_full = record loaded { dma_ring_wr_ptr = 1022 }

run-drops_example :
    handle_dma_batch (some (batch_of 1)) true (some (desc ∷ [])) (run calls nearly_full)
    ≡ (run calls nearly_full, none)
unfolding submitted_all
run-drops_example =
    run-drops calls nearly_full (batch_of 1) (desc ∷ []) (omega arith) refl (omega arith)
      (omega arith)

handle_prefetch-registers_example :
    (register reg_param_prefetch_k
        (handle_prefetch (some request) true (some (5 ∷ 6 ∷ 7 ∷ [])) 0 loaded).0.writes
      ≡ some 3)
    × (register reg_param_comp_scheme
          (handle_prefetch (some request) true (some (5 ∷ 6 ∷ 7 ∷ [])) 0 loaded).0.writes
        ≡ some 6)
handle_prefetch-registers_example =
    handle_prefetch-registers request 5 6 (7 ∷ []) 0 loaded refl refl

-- A prefetch when the FIFO is full.
abbrev refused : Ioctl
refused = prefetch (some request) true (some (5 ∷ [])) 0x80000000

speckv_ioctl_error_example : (speckv_ioctl refused loaded).0 ≡ loaded
unfolding speckv_ioctl handle_prefetch loses
speckv_ioctl_error_example = speckv_ioctl_error refused loaded {e = ebusy} refl refl

-- Threads that hand over two batches, request a prefetch and poll.
abbrev other_desc : DmaDesc
other_desc = record desc { fpga_addr = 0x4000200000 }

abbrev at_once : List Ioctl
at_once =
    hand_over desc (batch_of 1)
    ∷ dma_batch (some (batch_of 2)) true (some (desc ∷ other_desc ∷ []))
    ∷ prefetch (some request) true (some (5 ∷ 6 ∷ 7 ∷ [])) 0
    ∷ poll_done 2 true
    ∷ []

play-serial-counts_example :
    let after = play (serial 0 at_once) (record { kernel = loaded; threads = enter at_once }) in
    (after.threads ≡ all_ended at_once)
    × (after.kernel.dma_ring_wr_ptr ≡ min 1023 (0 + submitted_all at_once true))
    × ((after.kernel.dma_pending + all_completions at_once + 0) % u32_mod
        ≡ (0 + after.kernel.dma_ring_wr_ptr) % u32_mod)
play-serial-counts_example =
    play-serial-counts at_once loaded (refl, omega arith) refl
      (omega arith, (omega arith, (omega arith, (omega arith, tt))))

play-IsInside_example :
    IsInside (play (2 ∷ 3 ∷ in_step 7) (record { kernel = loaded; threads = enter at_once })).kernel
unfolding all_inside all_small
play-IsInside_example = play-IsInside (2 ∷ 3 ∷ in_step 7) at_once loaded refl (refl, omega arith)

play-Lost_example : Lost desc other_desc loaded (
    play
      (in_step 11)
      (two_batches (hand_over desc (batch_of 1)) (hand_over other_desc (batch_of 1)) loaded))
unfolding ring_full next_wr
play-Lost_example =
    play-Lost desc other_desc (batch_of 1) (batch_of 1) loaded (omega arith) (omega arith) refl refl

play-ended_example :
    get_elem? (play (in_step 12) (record { kernel = loaded; threads = enter at_once })).threads 0
    ≡ some ended
unfolding count turns
play-ended_example =
    play-ended (in_step 12) at_once loaded 0 (hand_over desc (batch_of 1)) refl (omega arith)

-- The first two threads at the same slot, then the others.
abbrev mixed : List ℕ
mixed = in_step 11 ++ (replicate 11 1 ++ (replicate 11 2 ++ replicate 3 3))

play-dma_pending_example :
    let after = (play mixed (record { kernel = loaded; threads = enter at_once })).kernel in
    (after.dma_pending + all_completions at_once + told loaded.writes) % u32_mod
    ≡ (loaded.dma_pending + told after.writes) % u32_mod
unfolding play turn advance ring_full field_writes write_all request_writes
play-dma_pending_example =
    play-dma_pending mixed at_once loaded refl
      (omega arith, (omega arith, (omega arith, (omega arith, tt)))) refl
