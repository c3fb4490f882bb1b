-- ===== src/Memory/Types.antt =====
-- The data of `CXLMemoryManager` (src/cxl_memory/cxl_memory_manager.h), and its mutex.
use cxl_spec_kv.Common.{ℕ, Bool, true, false, List, []}
use cxl_spec_kv.Common.Words.{mul64}

pub data MemoryTier : Type 0 where
  l1_gpu_local l2_prefetch l3_cxl_pool : MemoryTier

pub data PageState : Type 0 where
  invalid shared exclusive modified : PageState

pub record MemoryPage : Type 0 where
  pub virtual_addr : ℕ
  pub physical_addr : ℕ
  pub tier : MemoryTier
  pub state : PageState
  pub access_count : ℕ
  pub last_access_time : ℕ
  pub is_hot : Bool
  pub layer_id : ℕ

-- The two rates, which are quotients of these counters, are in Memory/Rates.
pub record Statistics : Type 0 where
  pub l1_hits : ℕ
  pub l1_misses : ℕ
  pub l2_hits : ℕ
  pub l2_misses : ℕ
  pub l3_accesses : ℕ
  pub migrations_l1_to_l3 : ℕ
  pub migrations_l3_to_l1 : ℕ

-- `page_table_locked` says that some call holds `page_table_mutex_`.
pub record MemoryManager : Type 0 where
  pub l1_size_bytes : ℕ
  pub l2_size_bytes : ℕ
  pub l3_size_bytes : ℕ
  pub page_size : ℕ
  pub page_table : List (ℕ × MemoryPage)
  pub l1_pages : List ℕ
  pub l2_pages : List ℕ
  pub l3_pages : List ℕ
  pub next_virtual_addr : ℕ
  pub next_physical_addr_l1 : ℕ
  pub next_physical_addr_l2 : ℕ
  pub next_physical_addr_l3 : ℕ
  pub l1_lru_list : List ℕ
  pub stats : Statistics
  pub page_table_locked : Bool

abbrev pub no_statistics : Statistics
no_statistics = record {
  l1_hits = 0;
  l1_misses = 0;
  l2_hits = 0;
  l2_misses = 0;
  l3_accesses = 0;
  migrations_l1_to_l3 = 0;
  migrations_l3_to_l1 = 0;
}

-- A size in gigabytes, in bytes.
unfoldable pub gigabytes : ℕ → ℕ
gigabytes n = mul64 (mul64 (mul64 n 1024) 1024) 1024

unfoldable pub create : ℕ → ℕ → ℕ → ℕ → MemoryManager
unfolding gigabytes
create l1_size_gb l2_size_gb l3_size_gb page_size = record {
  l1_size_bytes = gigabytes l1_size_gb;
  l2_size_bytes = gigabytes l2_size_gb;
  l3_size_bytes = gigabytes l3_size_gb;
  page_size = page_size;
  page_table = [];
  l1_pages = [];
  l2_pages = [];
  l3_pages = [];
  next_virtual_addr = 0x100000000;
  next_physical_addr_l1 = 0x8000000000;
  next_physical_addr_l2 = 0x10000000000;
  next_physical_addr_l3 = 0x20000000000;
  l1_lru_list = [];
  stats = no_statistics;
  page_table_locked = false;
}

-- A call returns, or waits for ever for a mutex that its own thread holds.
pub data Outcome {ℓ} (A : Type ℓ) : Type ℓ where
  returned : A → Outcome A
  deadlock : Outcome A

infixl 5 ◌>>=◌
abbrev pub ◌>>=◌ {ℓ κ} : {A : Type ℓ} {B : Type κ} → Outcome A → (A → Outcome B) → Outcome B
returned a >>= f = f a
deadlock >>= f = deadlock

-- `std::lock_guard<std::mutex> page_lock(page_table_mutex_);` around the body of a method.
unfoldable pub with_page_lock {ℓ} :
    {A : Type ℓ}
    → (MemoryManager → Outcome (MemoryManager × A))
    → MemoryManager
    → Outcome (MemoryManager × A)
with_page_lock body m = elim m.page_table_locked [
  | true ↦ deadlock
  | false ↦ do
    (done, result) ← body (record m { page_table_locked = true })
    returned (record done { page_table_locked = false }, result)
]
