-- ===== src/Integration/Tests.antt =====
-- Runs of the allocator's model, and its theorems at concrete data.
use cxl_spec_kv.Common.{ℕ, ◌≡◌, ◌⊎◌, ◌↔◌, refl, true, false, List, [], ◌∷◌, none, some, arith}
use cxl_spec_kv.Common.Words.{add64}
use cxl_spec_kv.Common.Assoc.{lookup}
use cxl_spec_kv.Engine.Floats.{whole_numbers}
use cxl_spec_kv.Memory.Types as Memory
use cxl_spec_kv.Memory.Types.{MemoryManager, MemoryPage, l3_cxl_pool, gigabytes}
use cxl_spec_kv.Integration.Types.{answer, hangs, AllocationHandle, CxlMemoryAllocator}
use cxl_spec_kv.Integration.Methods.{cxl_access}
use cxl_spec_kv.Integration.Kept.{waits}
use cxl_spec_kv.Integration.Access.{cxl_access-hangs}
use cxl_spec_kv.Integration.Calls.{
  Call, malloc, free, access, hint, all_sized, demand, accesses, sized, cost, promotions,
}
use cxl_spec_kv.Integration.Books.{IsBalanced}
use cxl_spec_kv.Integration.History.{history, history-IsBalanced, history-answers}
use cxl_spec_kv.Integration.Apart.{OwnMemory, history-OwnMemory}

abbrev predictor : List ℕ → ℕ → List (ℕ × ℕ)
predictor history k = (7, 90) ∷ (8, 5) ∷ []

-- Two allocations, an access, a hint, a release and an access to what was released.
abbrev calls : List (Call whole_numbers)
calls =
    malloc 1 10000 0
    ∷ malloc 2 64 3
    ∷ access 3 0x100000000 8192
    ∷ hint predictor (λ i. i) 5 (1 ∷ 2 ∷ []) 3
    ∷ free 0x100000000
    ∷ access 4 0x100000000 0
    ∷ []

history-IsBalanced_example :
    (history whole_numbers 1 1 1 calls ≡ hangs)
    ⊎ ((a : CxlMemoryAllocator whole_numbers) × (m : MemoryManager) × (history whole_numbers 1 1 1
            calls
          ≡ answer a)
        × IsBalanced whole_numbers 0 m a)
unfolding all_sized demand sized cost
history-IsBalanced_example = history-IsBalanced whole_numbers 1 1 1 calls refl (omega arith)

history-answers_example :
    (a : CxlMemoryAllocator whole_numbers) × (history whole_numbers 1 1 1 calls ≡ answer a)
unfolding all_sized demand sized cost accesses promotions gigabytes
history-answers_example = history-answers whole_numbers 1 1 1 calls refl (omega arith) (omega arith)

-- A manager whose L1 has no room, with one page in the CXL memory.
abbrev page : MemoryPage
page = record {
  virtual_addr = 0x100000000;
  physical_addr = 0x20000000000;
  tier = l3_cxl_pool;
  state = Memory.exclusive;
  access_count = 0;
  last_access_time = 0;
  is_hot = false;
  layer_id = 0;
}

abbrev manager_of : ℕ → MemoryManager
manager_of l1_size_bytes = record {
  l1_size_bytes = l1_size_bytes;
  l2_size_bytes = 0;
  l3_size_bytes = 1000000;
  page_size = 4096;
  page_table = (0x100000000, page) ∷ [];
  l1_pages = [];
  l2_pages = [];
  l3_pages = 0x100000000 ∷ [];
  next_virtual_addr = 0x100001000;
  next_physical_addr_l1 = 0x8000000000;
  next_physical_addr_l2 = 0x10000000000;
  next_physical_addr_l3 = 0x20000001000;
  l1_lru_list = [];
  stats = Memory.no_statistics;
  page_table_locked = false;
}

abbrev handle : AllocationHandle
handle = record { virtual_addr = 0x100000000; size_bytes = 100; layer_id = 0 }

abbrev allocator_of : ℕ → CxlMemoryAllocator whole_numbers
allocator_of l1_size_bytes = record {
  memory_manager = some (manager_of l1_size_bytes);
  prefetcher = none;
  cache_engine = none;
  handle_map = (0x100000000, handle) ∷ [];
  stats = record {
    total_allocations = 1;
    total_deallocations = 0;
    current_allocated_bytes = 100;
    peak_allocated_bytes = 100;
    prefetch_hit_rate = 0;
  };
  initialized = true;
}

cxl_access-hangs_example :
    (cxl_access whole_numbers 9 0x100000000 50 (allocator_of 100) ≡ hangs)
    ↔ (waits (add64 0x100000000 50) (manager_of 100) ≡ true)
unfolding lookup
cxl_access-hangs_example =
    cxl_access-hangs whole_numbers 9 0x100000000 50 (allocator_of 100) (manager_of 100) handle refl
      refl refl refl refl

history-OwnMemory_example :
    (history whole_numbers 1 1 1 calls ≡ hangs)
    ⊎ ((a : CxlMemoryAllocator whole_numbers) × (m : MemoryManager) × (history whole_numbers 1 1 1
            calls
          ≡ answer a)
        × (a.memory_manager ≡ some m)
        × OwnMemory m a.handle_map)
unfolding all_sized demand sized cost
history-OwnMemory_example = history-OwnMemory whole_numbers 1 1 1 calls refl (omega arith)
