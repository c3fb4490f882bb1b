-- ===== src/Memory/Migrate.antt =====
-- Page migration in `CXLMemoryManager` (src/cxl_memory/cxl_memory_manager.cpp), with the lock that
-- each of the two methods takes.
use cxl_spec_kv.Common.{ℕ, Bool, true, false, [], ◌∷◌, ◌++◌, none, some, if◌then◌else◌}
use cxl_spec_kv.Common.Words.{inc64}
use cxl_spec_kv.Memory.Types.{
  MemoryTier, l1_gpu_local, l2_prefetch, l3_cxl_pool, MemoryPage, MemoryManager, Outcome, returned,
  ◌>>=◌, with_page_lock,
}
use cxl_spec_kv.Memory.Pages.{
  remove_all, same_tier, get_page, put_page, can_fit_in_tier, update_lru,
}

-- The lists of the tier that a demoted page leaves.
unfoldable pub leave_upwards : MemoryTier → ℕ → MemoryManager → MemoryManager
leave_upwards l1_gpu_local addr m = record m {
  l1_pages = remove_all addr m.l1_pages;
  l1_lru_list = remove_all addr m.l1_lru_list;
  stats = record m.stats { migrations_l1_to_l3 = inc64 m.stats.migrations_l1_to_l3 };
}
leave_upwards l2_prefetch addr m = record m { l2_pages = remove_all addr m.l2_pages }
leave_upwards l3_cxl_pool addr m = m

-- The body of `demote_to_l3`, under the lock.
unfoldable pub demote_body : ℕ → MemoryManager → MemoryManager × Bool
unfolding leave_upwards
demote_body virtual_addr m = elim (get_page virtual_addr m) [
  | none ↦ (m, false)
  | some page ↦
      if same_tier page.tier l3_cxl_pool
      then (m, false)
      else (let moved = put_page virtual_addr (record page { tier = l3_cxl_pool }) m in
          let left = leave_upwards page.tier virtual_addr moved in
          (record left { l3_pages = left.l3_pages ++ virtual_addr ∷ [] }, true))
]

unfoldable pub demote_to_l3 : ℕ → MemoryManager → Outcome (MemoryManager × Bool)
unfolding demote_body with_page_lock
demote_to_l3 virtual_addr = with_page_lock (λ m. returned (demote_body virtual_addr m))

-- `evict_l1_lru`, which `promote_to_l1` calls with the lock held.
unfoldable pub evict_l1_lru : MemoryManager → Outcome MemoryManager
evict_l1_lru m = elim m.l1_lru_list [
  | [] ↦ returned m
  | lru_addr ∷ rest ↦ do
    (demoted, _) ← demote_to_l3 lru_addr (record m { l1_lru_list = rest })
    returned demoted
]

-- The lists of the tier that a promoted page leaves.
unfoldable pub leave_downwards : MemoryTier → ℕ → MemoryManager → MemoryManager
leave_downwards l1_gpu_local addr m = m
leave_downwards l2_prefetch addr m = record m { l2_pages = remove_all addr m.l2_pages }
leave_downwards l3_cxl_pool addr m = record m {
  l3_pages = remove_all addr m.l3_pages;
  stats = record m.stats { migrations_l3_to_l1 = inc64 m.stats.migrations_l3_to_l1 };
}

-- What `promote_to_l1` does once L1 has been checked: `page` is the entry to which the pointer
-- that was taken before the check still leads.
unfoldable pub finish_promotion : ℕ → MemoryPage → MemoryManager → MemoryManager
unfolding leave_downwards
finish_promotion virtual_addr page m =
    let moved = put_page virtual_addr (record page { tier = l1_gpu_local }) m in
    let left = leave_downwards page.tier virtual_addr moved in
    update_lru virtual_addr (record left { l1_pages = left.l1_pages ++ virtual_addr ∷ [] })

-- The body of `promote_to_l1`, under the lock.
unfoldable pub promote_body : ℕ → MemoryManager → Outcome (MemoryManager × Bool)
unfolding finish_promotion
promote_body virtual_addr m = elim (get_page virtual_addr m) [
  | none ↦ returned (m, false)
  | some page ↦ if same_tier page.tier l1_gpu_local then returned (m, false) else do
    room ← if can_fit_in_tier l1_gpu_local m.page_size m then returned m else evict_l1_lru m
    returned (finish_promotion virtual_addr page room, true)
]

unfoldable pub promote_to_l1 : ℕ → MemoryManager → Outcome (MemoryManager × Bool)
unfolding promote_body
promote_to_l1 virtual_addr = with_page_lock (promote_body virtual_addr)
