-- ===== src/Memory/Lock.antt =====
-- Which migrations return: the lock that `evict_l1_lru` takes again.
use cxl_spec_kv.Common.{
  ℕ, ◌≡◌, ◌↔◌, refl, Bool, true, false, ◌&&◌, not, List, [], ◌∷◌, Option, none, some, if◌then◌else◌,
  arith,
}
use cxl_spec_kv.Common.Assoc.{lookup-insert}
use cxl_spec_kv.Memory.Types.{
  l1_gpu_local, MemoryPage, MemoryManager, returned, deadlock, with_page_lock,
}
use cxl_spec_kv.Memory.Pages.{
  same_tier, get_page, put_page, can_fit_in_tier, update_lru, page_addr, is_in_cache,
  translate_virtual_to_physical,
}
use cxl_spec_kv.Memory.Migrate.{
  demote_body, demote_to_l3, promote_body, promote_to_l1, finish_promotion, evict_l1_lru,
}
use cxl_spec_kv.Memory.Translate.{
  SameTranslation, finish_promotion-SameTranslation, leave_downwards-table,
}

unfoldable pub is_empty : List ℕ → Bool
is_empty [] = true
is_empty (x ∷ xs) = false

-- The address has a page outside L1.
unfoldable pub promotable : Option MemoryPage → Bool
promotable none = false
promotable (some page) = not (same_tier page.tier l1_gpu_local)

-- The address has a page outside L1, L1 has no room for a page, and the LRU list is not empty.
unfoldable pub must_evict : ℕ → MemoryManager → Bool
unfolding is_empty promotable
must_evict a m =
    promotable (get_page a m)
    && (not (can_fit_in_tier l1_gpu_local m.page_size m) && not (is_empty m.l1_lru_list))

-- With the lock held an eviction returns only if there is nothing to evict.
evict_l1_lru-locked :
    (l : List ℕ) (m : MemoryManager)
    → m.l1_lru_list ≡ l
    → m.page_table_locked ≡ true
    → evict_l1_lru m ≡ (if is_empty l then returned m else deadlock)
unfolding evict_l1_lru demote_to_l3 is_empty
evict_l1_lru-locked [] m e h = ground arith
evict_l1_lru-locked (x ∷ xs) m e h = ground arith

-- A manager under its lock, and one whose lock has been given back.
abbrev pub locked : MemoryManager → MemoryManager
locked m = record m { page_table_locked = true }

abbrev pub unlocked : MemoryManager → MemoryManager
unlocked m = record m { page_table_locked = false }

can_fit-locked :
    (m : MemoryManager)
    → can_fit_in_tier l1_gpu_local m.page_size (locked m)
      ≡ can_fit_in_tier l1_gpu_local m.page_size m
unfolding can_fit_in_tier
can_fit-locked m = refl

-- What promotion does in the end, if it does not wait for ever.
unfoldable pub promoted : ℕ → MemoryManager → Option MemoryPage → MemoryManager × Bool
promoted a m none = (m, false)
promoted a m (some page) =
    if same_tier page.tier l1_gpu_local then (m, false) else (finish_promotion a page m, true)

pub promote_body-locked :
    (a : ℕ) (m : MemoryManager)
    → promote_body a (locked m)
      ≡ (if must_evict a m then deadlock else returned (promoted a (locked m) (get_page a m)))
unfolding promote_body must_evict promoted promotable get_page page_addr
promote_body-locked a m =
    ground (arith, evict_l1_lru-locked m.l1_lru_list (locked m) refl refl, can_fit-locked m)

-- A promotion that starts with the lock free waits for ever, for the lock that it holds itself,
-- exactly when the address has a page outside L1, L1 has no room for one more page, and the LRU
-- list is not empty: an eviction never completes.
pub promote_to_l1-deadlock :
    (a : ℕ) (m : MemoryManager)
    → m.page_table_locked ≡ false
    → (promote_to_l1 a m ≡ deadlock) ↔ (must_evict a m ≡ true)
unfolding promote_to_l1 with_page_lock
promote_to_l1-deadlock a m free =
    (λ e. ground (arith, promote_body-locked a m), λ e. ground (arith, promote_body-locked a m))

-- Every demotion that starts with the lock free returns, and gives the lock back.
demote_to_l3-returns :
    (a : ℕ) (m : MemoryManager)
    → m.page_table_locked ≡ false
    → demote_to_l3 a m
      ≡ returned (unlocked (demote_body a (locked m)).0, (demote_body a (locked m)).1)
unfolding demote_to_l3 with_page_lock
demote_to_l3-returns a m free = ground arith

translation-unlocked : (m : MemoryManager) → SameTranslation (locked m) (unlocked m)
unfolding translate_virtual_to_physical get_page page_addr
translation-unlocked m b = refl

pub promoted-SameTranslation :
    (a : ℕ) (m : MemoryManager) (p : Option MemoryPage)
    → get_page a m ≡ p
    → SameTranslation m (unlocked (promoted a (locked m) p).0)
unfolding promoted translate_virtual_to_physical get_page page_addr
promoted-SameTranslation a m none h b = refl
promoted-SameTranslation a m (some page) h b =
    ground (arith, finish_promotion-SameTranslation a page (locked m) h b)

finish_promotion-is_in_cache :
    (a : ℕ) (page : MemoryPage) (m : MemoryManager)
    → is_in_cache a l1_gpu_local (finish_promotion a page m) ≡ true
unfolding is_in_cache finish_promotion get_page put_page page_addr update_lru same_tier
finish_promotion-is_in_cache a page m =
    grind (arith, lookup-insert {V = MemoryPage}, leave_downwards-table)

promoted-result :
    (a : ℕ) (m : MemoryManager) (p : Option MemoryPage) → (promoted a m p).1 ≡ promotable p
unfolding promoted promotable
promoted-result a m none = refl
promoted-result a m (some page) = ground arith

pub promoted-is_in_cache :
    (a : ℕ) (m : MemoryManager) (p : Option MemoryPage)
    → promotable p ≡ true
    → is_in_cache a l1_gpu_local (unlocked (promoted a m p).0) ≡ true
unfolding promoted promotable is_in_cache get_page page_addr
promoted-is_in_cache a m none e = ground arith
promoted-is_in_cache a m (some page) e = ground (arith, finish_promotion-is_in_cache a page m)

-- A promotion that starts with the lock free and need not evict returns with the lock free,
-- reports whether the address has a page outside L1, and leaves every translation as it was; if it
-- reports success, the page of the address is in L1.
promote_to_l1-moves :
    (a : ℕ) (m : MemoryManager)
    → m.page_table_locked ≡ false
    → must_evict a m ≡ false
    → (n : MemoryManager) × (promote_to_l1 a m ≡ returned (n, promotable (get_page a m)))
      × (n.page_table_locked ≡ false)
      × SameTranslation m n
      × (promotable (get_page a m) ≡ true → is_in_cache a l1_gpu_local n ≡ true)
unfolding promote_to_l1 with_page_lock
promote_to_l1-moves a m free no_eviction = (
  unlocked (promoted a (locked m) (get_page a m)).0,
  ground (arith, promote_body-locked a m, promoted-result a (locked m) (get_page a m)),
  refl,
  promoted-SameTranslation a m (get_page a m) refl,
  promoted-is_in_cache a (locked m) (get_page a m),
)
