-- ===== src/Integration/Methods.antt =====
-- The methods of `CXLMemoryAllocator` (src/integration/memory_allocator.cpp). The readings of the
-- clock, the results of the predictor and what the constructors throw are arguments.
use cxl_spec_kv.Common.{ℕ, Bool, true, false, ◌||◌, not, List, none, some, if◌then◌else◌, ◌==◌, ltb}
use cxl_spec_kv.Common.Words.{add64, sub64, inc64}
use cxl_spec_kv.Common.Assoc.{lookup, insert, erase}
use cxl_spec_kv.Engine.Floats.{Floats}
use cxl_spec_kv.Engine.Types as Engine
use cxl_spec_kv.Memory.Types as Memory
use cxl_spec_kv.Memory.Types.{MemoryManager, l1_gpu_local, l2_prefetch, l3_cxl_pool}
use cxl_spec_kv.Memory.Pages.{
  allocate, deallocate, update_access_tracking, is_in_cache, is_hot_page,
}
use cxl_spec_kv.Memory.Migrate.{promote_to_l1}
use cxl_spec_kv.Prefetch.Types as Prefetch
use cxl_spec_kv.Prefetch.Methods as Prefetching
use cxl_spec_kv.Integration.Types.{
  Reply, answer, ◌>>=◌, reply_of, through, AllocationHandle, AllocatorStatistics,
  CxlMemoryAllocator,
}

-- A promotion whose result is not looked at.
unfoldable pub promote : ℕ → MemoryManager → Reply MemoryManager
promote virtual_addr m = do (after, _) ← reply_of (promote_to_l1 virtual_addr m); answer after

-- What an access does with the page of the address.
unfoldable pub touch : ℕ → ℕ → MemoryManager → Reply MemoryManager
unfolding promote
touch now virtual_addr m =
    let tracked = update_access_tracking now virtual_addr m in
    if is_in_cache virtual_addr l1_gpu_local tracked
    then answer tracked
    else if is_in_cache virtual_addr l2_prefetch tracked
    then (let (looked, hot) = is_hot_page virtual_addr tracked in
        if hot then promote virtual_addr looked else answer looked)
    else promote virtual_addr tracked

module _ (f : Floats) where
  open f use {Double, double_hundredths}

  -- Which of the three constructors throws first, if any.
  pub data Built : Type 0 where
    none_built manager_built prefetcher_built all_built : Built

  unfoldable pub initialize : Built → ℕ → ℕ → ℕ → CxlMemoryAllocator f → CxlMemoryAllocator f × Bool
  initialize built l1_size_gb l2_size_gb l3_size_gb a =
      let with_manager = record a {
        memory_manager = some (Memory.create l1_size_gb l2_size_gb l3_size_gb 4096);
      } in
      let with_prefetcher = record with_manager { prefetcher = some (Prefetch.create f 4 16) } in
      let with_engine = record with_prefetcher {
        cache_engine = some (Engine.create f 1 (double_hundredths 80000) 512 16);
      } in
      elim built [
        | none_built ↦ (record a { initialized = false }, false)
        | manager_built ↦ (record with_manager { initialized = false }, false)
        | prefetcher_built ↦ (record with_prefetcher { initialized = false }, false)
        | all_built ↦ (record with_engine { initialized = true }, true)
      ]

  unfoldable pub count_malloc : ℕ → AllocatorStatistics f → AllocatorStatistics f
  count_malloc size_bytes s =
      let current = add64 s.current_allocated_bytes size_bytes in
      record s {
        total_allocations = inc64 s.total_allocations;
        current_allocated_bytes = current;
        peak_allocated_bytes =
            if ltb s.peak_allocated_bytes current then current else s.peak_allocated_bytes;
      }

  unfoldable pub count_free : ℕ → AllocatorStatistics f → AllocatorStatistics f
  count_free size_bytes s = record s {
    total_deallocations = inc64 s.total_deallocations;
    current_allocated_bytes = sub64 s.current_allocated_bytes size_bytes;
  }

  -- The handle and the counters of an allocation that the memory manager has made.
  unfoldable pub add_handle : ℕ → ℕ → ℕ → CxlMemoryAllocator f → CxlMemoryAllocator f
  unfolding count_malloc
  add_handle virtual_addr size_bytes layer_id a =
      let handle : AllocationHandle = record {
        virtual_addr = virtual_addr;
        size_bytes = size_bytes;
        layer_id = layer_id;
      } in
      record a {
        handle_map = insert virtual_addr handle a.handle_map;
        stats = count_malloc size_bytes a.stats;
      }

  -- The pointer is 0 for `nullptr`.
  unfoldable pub cxl_malloc : ℕ → ℕ → ℕ → CxlMemoryAllocator f → Reply (CxlMemoryAllocator f × ℕ)
  unfolding add_handle
  cxl_malloc now size_bytes layer_id a = if not a.initialized then answer (a, 0) else do
    m ← through a.memory_manager
    let (allocated, virtual_addr) = allocate now size_bytes layer_id l3_cxl_pool m in
        let after = record a { memory_manager = some allocated } in
        answer (
          if virtual_addr == 0
          then (after, 0)
          else (add_handle virtual_addr size_bytes layer_id after, virtual_addr))

  unfoldable pub cxl_free : ℕ → CxlMemoryAllocator f → Reply (CxlMemoryAllocator f)
  unfolding count_free
  cxl_free ptr a =
      if not a.initialized || ptr == 0 then answer a else elim (lookup ptr a.handle_map) [
        | none ↦ answer a
        | some handle ↦ do
          m ← through a.memory_manager
          answer (record a {
            memory_manager = some (deallocate handle.virtual_addr m);
            stats = count_free handle.size_bytes a.stats;
            handle_map = erase ptr a.handle_map;
          })
      ]

  unfoldable pub cxl_access : ℕ → ℕ → ℕ → CxlMemoryAllocator f → Reply (CxlMemoryAllocator f × ℕ)
  unfolding touch
  cxl_access now handle offset a =
      if not a.initialized || handle == 0
      then answer (a, 0)
      else elim (lookup handle a.handle_map) [
        | none ↦ answer (a, 0)
        | some alloc ↦ do
          m ← through a.memory_manager
          touched ← touch now (add64 alloc.virtual_addr offset) m
          answer (record a { memory_manager = some touched }, add64 alloc.virtual_addr offset)
      ]

  unfoldable pub prefetch_hint :
      (List ℕ → ℕ → List (ℕ × f.Float))
      → (ℕ → ℕ)
      → ℕ
      → List ℕ
      → ℕ
      → CxlMemoryAllocator f
      → Reply (CxlMemoryAllocator f)
  prefetch_hint predict_top_k now latency_us token_history layer_id a =
      if not a.initialized then answer a else elim a.prefetcher [
        | none ↦ answer a
        | some prefetcher ↦ do
          m ← through a.memory_manager
          let (after, requests) =
                Prefetching.prefetch f predict_top_k now latency_us m token_history layer_id 0
                  prefetcher in
              answer (record a {
                prefetcher = some after;
                stats = record a.stats {
                  prefetch_hit_rate = (Prefetching.get_statistics f after).hit_rate;
                };
              })
      ]

  unfoldable pub get_statistics : CxlMemoryAllocator f → AllocatorStatistics f
  get_statistics a = a.stats
