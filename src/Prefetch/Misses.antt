-- ===== src/Prefetch/Misses.antt =====
-- The prefetcher (src/prefetcher/speculative_prefetcher.cpp) asks a memory manager
-- (src/cxl_memory/cxl_memory_manager.cpp) which of its addresses are cached: none of them ever is.
use native.Mathlib.Nat.{div-mul-le_self}
use cxl_spec_kv.Common.{
  ℕ, zero, suc, ◌+◌, ◌*◌, ◌^◌, ◌≤◌, ◌<◌, ◌≡◌, refl, false, List, [], ◌∷◌, length, map, arith, ◌∙◌,
  ap, ◌/◌, ◌%◌,
}
use cxl_spec_kv.Common.Words.{u32_mod}
use cxl_spec_kv.Engine.Floats.{Floats}
use cxl_spec_kv.Memory.Types.{MemoryManager, returned, create}
use cxl_spec_kv.Memory.Pages.{get_page, page_addr, is_in_cache}
use cxl_spec_kv.Memory.Histories.{Call, run, demand}
use cxl_spec_kv.Memory.Unknown.{Unknown, run-create-Unknown}
use cxl_spec_kv.Prefetch.Types.{Prefetcher, PrefetchRequest}
use cxl_spec_kv.Prefetch.Methods.{predicted_addr, is_cached, prefetch}
use cxl_spec_kv.Prefetch.Requests.{
  compute_kv_address-fields, uncached, prefetch-addresses, predictions,
}

-- The addresses of a layer from position `i + 1` on.
abbrev pub positions : ℕ → ℕ → ℕ → List ℕ
positions layer i zero = []
positions layer i (suc count) = (layer * 2 ^ 16 + (i + 1)) ∷ positions layer (i + 1) count

pub predicted_addr-low :
    (layer i : ℕ)
    → layer < 2 ^ 16
    → i + 1 < 2 ^ 16
    → predicted_addr layer i ≡ layer * 2 ^ 16 + (i + 1)
unfolding predicted_addr
predicted_addr-low layer i l p =
    let position : (i + 1) % u32_mod ≡ i + 1 = omega arith in
    rw position (compute_kv_address-fields 0 layer (i + 1) (omega arith) l p ∙ omega arith)

-- An address below which no page starts.
abbrev Below : MemoryManager → Type 0
Below m = (k : ℕ) → k < 0x100000000 → Unknown k m

is_cached-low :
    (addr : ℕ) (m : MemoryManager) → Below m → addr < 0x100000000 → is_cached addr m ≡ false
unfolding is_cached is_in_cache get_page page_addr
is_cached-low addr m below lt =
    let start = div-mul-le_self addr m.page_size in
    let unknown = below (addr / m.page_size * m.page_size) (omega arith) in ground (arith, unknown)

uncached-all :
    (m : MemoryManager) (layer i count : ℕ)
    → Below m
    → layer < 2 ^ 16
    → i + count < 2 ^ 16
    → uncached m layer i count ≡ positions layer i count
unfolding uncached
uncached-all m layer i zero below l few = refl
uncached-all m layer i (suc count) below l few =
    let addr = predicted_addr-low layer i l (omega arith) in
    let miss = is_cached-low (layer * 2 ^ 16 + (i + 1)) m below (omega arith) in
    rw (addr, miss)
      (ap (◌∷◌ (layer * 2 ^ 16 + (i + 1)))
        (uncached-all m layer (i + 1) count below l (omega arith)))

-- After any sequence of calls that return, within 512 GB, on a new memory manager whose page size is
-- not 0 and divides 4 GB, a call of the prefetcher for a layer below 2^16, with fewer than 2^16
-- predictions, asks for the page of every one of them: nothing that was allocated is ever taken for
-- a prediction that is cached.
pub prefetch-all :
    (f : Floats) (l1 l2 l3 page_size q : ℕ) (calls : List Call) (m : MemoryManager)
    (predict_top_k : List ℕ → ℕ → List (ℕ × f.Float)) (now : ℕ → ℕ) (latency_us : ℕ)
    (history : List ℕ) (layer depth : ℕ) (p : Prefetcher f)
    → 0 < page_size
    → q * page_size ≡ 0x100000000
    → demand page_size calls ≤ 0x8000000000
    → run calls (create l1 l2 l3 page_size) ≡ returned m
    → layer < 2 ^ 16
    → length (predictions f predict_top_k now latency_us m history layer depth p) < 2 ^ 16
    → map
        (λ (r : PrefetchRequest f). r.virtual_addr)
        (prefetch f predict_top_k now latency_us m history layer depth p).1
      ≡ positions layer 0
          (length (predictions f predict_top_k now latency_us m history layer depth p))
prefetch-all f l1 l2 l3 page_size q calls m predict_top_k now latency_us history layer depth p pos
      whole fits e l few =
    prefetch-addresses f predict_top_k now latency_us m history layer depth p
    ∙ uncached-all m layer 0
        (length (predictions f predict_top_k now latency_us m history layer depth p))
        (run-create-Unknown l1 l2 l3 page_size q calls m pos whole fits e) l (omega arith)
