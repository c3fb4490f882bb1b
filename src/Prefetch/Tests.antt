-- ===== src/Prefetch/Tests.antt =====
-- Runs of the prefetcher's model, and its theorems at concrete data.
use cxl_spec_kv.Common.{
  ℕ, zero, suc, ◌+◌, ◌≡◌, Bool, true, false, List, [], ◌∷◌, ◌++◌, map, length, arith, replicate,
  refl,
}
use cxl_spec_kv.Engine.Floats.{whole_numbers}
use cxl_spec_kv.Memory.Types.{
  MemoryManager, MemoryPage, MemoryTier, l1_gpu_local, l2_prefetch, l3_cxl_pool,
}
use cxl_spec_kv.Memory.Types
use cxl_spec_kv.Common.Assoc.{lookup}
use cxl_spec_kv.Memory.Pages.{allocate}
use cxl_spec_kv.Prefetch.Types.{Prefetcher, PrefetchRequest, create}
use cxl_spec_kv.Prefetch.Methods.{prefetch}
use cxl_spec_kv.Prefetch.Depth.{update_all}
use cxl_spec_kv.Prefetch.Streaks.{update_all-right}
use cxl_spec_kv.Memory.Histories.{allocate_call, run, step, demand, cost}
use cxl_spec_kv.Prefetch.Misses.{positions, prefetch-all}
use cxl_spec_kv.Prefetch.Asked.{Wish, wishes, wish_of, keep, is_far, prefetch-wishes}

abbrev prefetcher : Prefetcher whole_numbers
prefetcher = create whole_numbers 4 16

-- A predictor that answers with the first tokens, all with the same confidence.
abbrev first_tokens : List ℕ → ℕ → List (ℕ × ℕ)
first_tokens history zero = []
first_tokens history (suc k) = (k, 1) ∷ first_tokens history k

abbrev clock : ℕ → ℕ
clock i = 1000 + i

-- A manager whose only page is in the L2.
abbrev manager : MemoryManager
manager = (allocate 7 4096 5 l2_prefetch (Types.create 1 1 2 4096)).0

abbrev mixed : List Bool
mixed = true ∷ false ∷ true ∷ true ∷ []

-- A manager of two-byte pages, with one in each tier where the predictions of layer 2 start.
abbrev page_in : MemoryTier → MemoryPage
page_in tier = record {
  virtual_addr = 0;
  physical_addr = 0;
  tier = tier;
  state = Types.shared;
  access_count = 0;
  last_access_time = 0;
  is_hot = false;
  layer_id = 2;
}

abbrev low_pages : MemoryManager
low_pages = record manager {
  page_size = 2;
  page_table =
      (131072, page_in l1_gpu_local)
      ∷ (131074, page_in l2_prefetch)
      ∷ (131076, page_in l3_cxl_pool)
      ∷ [];
}

prefetch-wishes_example :
    map
      (wish_of whole_numbers)
      (prefetch whole_numbers first_tokens clock 3 low_pages (5 ∷ []) 2 6 prefetcher).1
    ≡ keep
        (λ (w : Wish whole_numbers). is_far low_pages w.0)
        (wishes whole_numbers 2 0 (first_tokens (5 ∷ []) 6))
prefetch-wishes_example =
    prefetch-wishes whole_numbers first_tokens clock 3 low_pages (5 ∷ []) 2 6 prefetcher
      (omega arith) (omega arith)

-- Of six predictions the three that are in neither cache.
three_wishes :
    keep
      (λ (w : Wish whole_numbers). is_far low_pages w.0)
      (wishes whole_numbers 2 0 (first_tokens (5 ∷ []) 6))
    ≡ (131076, 2, 1) ∷ (131077, 1, 1) ∷ (131078, 0, 1) ∷ []
unfolding keep is_far lookup
three_wishes = refl

update_all-right_example :
    (update_all whole_numbers
      (mixed ++ replicate 15 true)
      (create whole_numbers 4 16)).adaptive_depth
    ≡ 8
update_all-right_example =
    update_all-right whole_numbers mixed 4 16 15 (omega arith, omega arith) (omega arith)

prefetch-all_example :
    map
      (λ (r : PrefetchRequest whole_numbers). r.virtual_addr)
      (prefetch whole_numbers first_tokens clock 3 manager (5 ∷ []) 2 6 prefetcher).1
    ≡ positions 2 0 (length (first_tokens (5 ∷ []) 6))
unfolding run step demand cost
prefetch-all_example =
    prefetch-all whole_numbers 1 1 2 4096 0x100000 (allocate_call 7 4096 5 l2_prefetch ∷ []) manager
      first_tokens clock 3 (5 ∷ []) 2 6 prefetcher (omega arith) refl (omega arith) refl
      (omega arith) (omega arith)
