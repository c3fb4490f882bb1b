-- ===== src/Memory/Pages.antt =====
-- Allocation, translation and the state of pages in `CXLMemoryManager`
-- (src/cxl_memory/cxl_memory_manager.cpp). A method that cannot meet a lock of its own thread is
-- given without its lock.
use cxl_spec_kv.Common.{
  ℕ, zero, suc, ◌+◌, ◌-◌, ◌*◌, ◌/◌, Bool, true, false, ◌&&◌, not, List, [], ◌∷◌, ◌++◌, Option, none,
  some, if◌then◌else◌, ◌==◌, leb, ltb, length,
}
use cxl_spec_kv.Common.Words.{add64, sub64, mul64, inc64, inc32}
use cxl_spec_kv.Common.Assoc.{lookup, insert, erase}
use cxl_spec_kv.Memory.Types.{
  MemoryTier, l1_gpu_local, l2_prefetch, l3_cxl_pool, PageState, invalid, exclusive, modified,
  MemoryPage, Statistics, MemoryManager, no_statistics,
}

-- `list.erase(std::remove(list.begin(), list.end(), addr), list.end())`.
unfoldable pub remove_all : ℕ → List ℕ → List ℕ
remove_all addr [] = []
remove_all addr (x ∷ xs) = if x == addr then remove_all addr xs else x ∷ remove_all addr xs

unfoldable pub same_tier : MemoryTier → MemoryTier → Bool
same_tier l1_gpu_local l1_gpu_local = true
same_tier l2_prefetch l2_prefetch = true
same_tier l3_cxl_pool l3_cxl_pool = true
same_tier _ _ = false

-- `(virtual_addr / page_size_) * page_size_`.
unfoldable pub page_addr : ℕ → MemoryManager → ℕ
page_addr virtual_addr m = virtual_addr / m.page_size * m.page_size

unfoldable pub get_page : ℕ → MemoryManager → Option MemoryPage
get_page virtual_addr m = lookup (page_addr virtual_addr m) m.page_table

-- A write through the pointer that `get_page` returns.
unfoldable pub put_page : ℕ → MemoryPage → MemoryManager → MemoryManager
put_page virtual_addr page m = record m {
  page_table = insert (page_addr virtual_addr m) page m.page_table;
}

unfoldable pub can_fit_in_tier : MemoryTier → ℕ → MemoryManager → Bool
can_fit_in_tier l1_gpu_local size_bytes m =
    leb (add64 (mul64 (length m.l1_pages) m.page_size) size_bytes) m.l1_size_bytes
can_fit_in_tier l2_prefetch size_bytes m =
    leb (add64 (mul64 (length m.l2_pages) m.page_size) size_bytes) m.l2_size_bytes
can_fit_in_tier l3_cxl_pool size_bytes m =
    leb (add64 (mul64 (length m.l3_pages) m.page_size) size_bytes) m.l3_size_bytes

-- `(size_bytes + page_size_ - 1) / page_size_`.
unfoldable pub pages_for : ℕ → MemoryManager → ℕ
pages_for size_bytes m = sub64 (add64 size_bytes m.page_size) 1 / m.page_size

-- The entry of page `i` of an allocation.
unfoldable pub new_page : ℕ → ℕ → MemoryTier → ℕ → ℕ → ℕ → ℕ → MemoryPage
new_page now layer_id tier virtual_addr physical_base page_size i = record {
  virtual_addr = add64 virtual_addr (mul64 i page_size);
  physical_addr = add64 physical_base (mul64 i page_size);
  tier = tier;
  state = exclusive;
  access_count = 0;
  last_access_time = now;
  is_hot = false;
  layer_id = layer_id;
}

-- The loop that creates the entries, from page `i` on, for the pages that are left.
unfoldable pub create_pages :
    (ℕ → MemoryPage) → ℕ → ℕ → List (ℕ × MemoryPage) → List (ℕ × MemoryPage)
create_pages page zero i table = table
create_pages page (suc left) i table =
    create_pages page left (i + 1) (insert (page i).virtual_addr (page i) table)

-- Where an allocation in a tier begins, and the manager after its bump pointer and list moved.
unfoldable pub reserve : MemoryTier → ℕ → MemoryManager → MemoryManager × ℕ
reserve l1_gpu_local required m = (
  record m {
    next_physical_addr_l1 = add64 m.next_physical_addr_l1 required;
    l1_pages = m.l1_pages ++ m.next_virtual_addr ∷ [];
  },
  m.next_physical_addr_l1,
)
reserve l2_prefetch required m = (
  record m {
    next_physical_addr_l2 = add64 m.next_physical_addr_l2 required;
    l2_pages = m.l2_pages ++ m.next_virtual_addr ∷ [];
  },
  m.next_physical_addr_l2,
)
reserve l3_cxl_pool required m = (
  record m {
    next_physical_addr_l3 = add64 m.next_physical_addr_l3 required;
    l3_pages = m.l3_pages ++ m.next_virtual_addr ∷ [];
  },
  m.next_physical_addr_l3,
)

-- The tier that is used: L3 in place of an L1 that has no room.
unfoldable pub actual_tier : MemoryTier → ℕ → MemoryManager → MemoryTier
actual_tier preferred required m =
    if same_tier preferred l1_gpu_local && not (can_fit_in_tier l1_gpu_local required m)
    then l3_cxl_pool
    else preferred

unfoldable pub allocate : ℕ → ℕ → ℕ → MemoryTier → MemoryManager → MemoryManager × ℕ
allocate now size_bytes layer_id preferred_tier m =
    let num_pages = pages_for size_bytes m in
    let required = mul64 num_pages m.page_size in
    let tier = actual_tier preferred_tier required m in
    let virtual_addr = m.next_virtual_addr in
    let (reserved, physical_base) = reserve tier required m in
    let page = new_page now layer_id tier virtual_addr physical_base m.page_size in
    (
      record reserved {
        page_table = create_pages page num_pages 0 reserved.page_table;
        next_virtual_addr = add64 m.next_virtual_addr required;
      },
      virtual_addr,
    )

-- The lists without the address, by the tier of its page.
unfoldable pub forget : MemoryTier → ℕ → MemoryManager → MemoryManager
unfolding remove_all
forget l1_gpu_local addr m = record m {
  l1_pages = remove_all addr m.l1_pages;
  l1_lru_list = remove_all addr m.l1_lru_list;
}
forget l2_prefetch addr m = record m { l2_pages = remove_all addr m.l2_pages }
forget l3_cxl_pool addr m = record m { l3_pages = remove_all addr m.l3_pages }

unfoldable pub deallocate : ℕ → MemoryManager → MemoryManager
unfolding forget
deallocate virtual_addr m = elim (lookup virtual_addr m.page_table) [
  | none ↦ m
  | some page ↦
      let forgot = forget page.tier virtual_addr m in
      record forgot { page_table = erase virtual_addr forgot.page_table }
]

unfoldable pub translate_virtual_to_physical : ℕ → MemoryManager → ℕ
translate_virtual_to_physical virtual_addr m = elim (get_page virtual_addr m) [
  | none ↦ 0
  | some page ↦ add64 page.physical_addr (virtual_addr - page_addr virtual_addr m)
]

unfoldable pub is_in_cache : ℕ → MemoryTier → MemoryManager → Bool
is_in_cache virtual_addr tier m = elim (get_page virtual_addr m) [
  | none ↦ false
  | some page ↦ same_tier page.tier tier
]

unfoldable pub invalidate_page : ℕ → MemoryManager → MemoryManager
invalidate_page virtual_addr m = elim (get_page virtual_addr m) [
  | none ↦ m
  | some page ↦ put_page virtual_addr (record page { state = invalid }) m
]

unfoldable pub mark_modified : ℕ → MemoryManager → MemoryManager
mark_modified virtual_addr m = elim (get_page virtual_addr m) [
  | none ↦ m
  | some page ↦ put_page virtual_addr (record page { state = modified }) m
]

unfoldable pub get_page_state : ℕ → MemoryManager → PageState
get_page_state virtual_addr m = elim (get_page virtual_addr m) [
  | none ↦ invalid
  | some page ↦ page.state
]

unfoldable pub update_lru : ℕ → MemoryManager → MemoryManager
update_lru virtual_addr m = record m {
  l1_lru_list = remove_all virtual_addr m.l1_lru_list ++ virtual_addr ∷ [];
}

-- The counter that an access to a page of the tier moves.
unfoldable pub count_access : MemoryTier → Statistics → Statistics
count_access l1_gpu_local s = record s { l1_hits = inc64 s.l1_hits }
count_access l2_prefetch s = record s { l2_hits = inc64 s.l2_hits }
count_access l3_cxl_pool s = record s { l3_accesses = inc64 s.l3_accesses }

unfoldable pub update_access_tracking : ℕ → ℕ → MemoryManager → MemoryManager
unfolding update_lru
update_access_tracking now virtual_addr m = elim (get_page virtual_addr m) [
  | none ↦ m
  | some page ↦
      let touched = record page {
        access_count = inc32 page.access_count;
        last_access_time = now;
      } in
      let counted = put_page virtual_addr touched m in
      update_lru virtual_addr (record counted { stats = count_access page.tier counted.stats })
]

unfoldable pub is_hot_page : ℕ → MemoryManager → MemoryManager × Bool
is_hot_page virtual_addr m = elim (get_page virtual_addr m) [
  | none ↦ (m, false)
  | some page ↦
      let hot = ltb 10 page.access_count in
      (put_page virtual_addr (record page { is_hot = hot }) m, hot)
]

unfoldable pub get_statistics : MemoryManager → Statistics
get_statistics m = m.stats

unfoldable pub reset_statistics : MemoryManager → MemoryManager
reset_statistics m = record m { stats = no_statistics }
