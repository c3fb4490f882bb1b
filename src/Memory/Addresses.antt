-- ===== src/Memory/Addresses.antt =====
-- What the methods of `CXLMemoryManager` (src/cxl_memory/cxl_memory_manager.cpp) that allocate and
-- free nothing keep: every translation, and where the next allocation goes.
use cxl_spec_kv.Common.{ℕ, ◌≡◌, refl, Bool, false, Option, arith, ◌∙◌, ap, sym}
use cxl_spec_kv.Memory.Types.{
  MemoryTier, l1_gpu_local, l2_prefetch, l3_cxl_pool, MemoryPage, MemoryManager,
}
use cxl_spec_kv.Memory.Pages.{
  get_page, put_page, page_addr, update_access_tracking, update_lru, is_hot_page, invalidate_page,
  mark_modified, reset_statistics, translate_virtual_to_physical, deallocate, forget,
}
use cxl_spec_kv.Memory.Migrate.{demote_body, finish_promotion, leave_upwards, leave_downwards}
use cxl_spec_kv.Memory.Translate.{SameTranslation, metadata-SameTranslation}
use cxl_spec_kv.Memory.Lock.{promoted, locked, unlocked, promoted-SameTranslation}

-- Where the next allocation goes, how large a page is, and whether the lock is held.
pub record SameCounters (m n : MemoryManager) : Type 0 where
  pub same_page_size : n.page_size ≡ m.page_size
  pub same_next : n.next_virtual_addr ≡ m.next_virtual_addr
  pub same_next_l1 : n.next_physical_addr_l1 ≡ m.next_physical_addr_l1
  pub same_next_l2 : n.next_physical_addr_l2 ≡ m.next_physical_addr_l2
  pub same_next_l3 : n.next_physical_addr_l3 ≡ m.next_physical_addr_l3
  pub same_lock : n.page_table_locked ≡ m.page_table_locked

pub record SameAddresses (m n : MemoryManager) : Type 0 where
  pub counters : SameCounters m n
  pub translation : SameTranslation m n

abbrev counters_of : MemoryManager → ℕ × ℕ × ℕ × ℕ × ℕ × Bool
counters_of m = (
  m.page_size, m.next_virtual_addr, m.next_physical_addr_l1, m.next_physical_addr_l2,
  m.next_physical_addr_l3, m.page_table_locked,
)

same_counters : {m n : MemoryManager} → counters_of n ≡ counters_of m → SameCounters m n
same_counters e = record {
  same_page_size = ap (λ c. c.0) e;
  same_next = ap (λ c. c.1) e;
  same_next_l1 = ap (λ c. c.2) e;
  same_next_l2 = ap (λ c. c.3) e;
  same_next_l3 = ap (λ c. c.4) e;
  same_lock = ap (λ c. c.5) e;
}

same :
    {m n : MemoryManager} → counters_of n ≡ counters_of m → SameTranslation m n → SameAddresses m n
same e translation = record { counters = same_counters e; translation = translation }

pub SameAddresses-refl : (m : MemoryManager) → SameAddresses m m
SameAddresses-refl m = same refl (λ b. refl)

SameCounters-trans :
    {m n o : MemoryManager} → SameCounters m n → SameCounters n o → SameCounters m o
SameCounters-trans h g = record {
  same_page_size = g.same_page_size ∙ h.same_page_size;
  same_next = g.same_next ∙ h.same_next;
  same_next_l1 = g.same_next_l1 ∙ h.same_next_l1;
  same_next_l2 = g.same_next_l2 ∙ h.same_next_l2;
  same_next_l3 = g.same_next_l3 ∙ h.same_next_l3;
  same_lock = g.same_lock ∙ h.same_lock;
}

pub SameAddresses-trans :
    {m n o : MemoryManager} → SameAddresses m n → SameAddresses n o → SameAddresses m o
SameAddresses-trans h g = record {
  counters = SameCounters-trans h.counters g.counters;
  translation = λ b. g.translation b ∙ h.translation b;
}

counters-put_page :
    (a : ℕ) (p : MemoryPage) (m : MemoryManager) → counters_of (put_page a p m) ≡ counters_of m
unfolding put_page
counters-put_page a p m = refl

pub tracked-SameAddresses :
    (now a : ℕ) (m : MemoryManager) → SameAddresses m (update_access_tracking now a m)
unfolding update_access_tracking update_lru
tracked-SameAddresses now a m =
    same (grind (arith, counters-put_page)) ((metadata-SameTranslation now a m).2)

pub hot-SameAddresses : (a : ℕ) (m : MemoryManager) → SameAddresses m (is_hot_page a m).0
unfolding is_hot_page
hot-SameAddresses a m = same (grind (arith, counters-put_page)) ((metadata-SameTranslation 0 a m).3)

pub invalidated-SameAddresses : (a : ℕ) (m : MemoryManager) → SameAddresses m (invalidate_page a m)
unfolding invalidate_page
invalidated-SameAddresses a m =
    same (grind (arith, counters-put_page)) ((metadata-SameTranslation 0 a m).0)

pub modified-SameAddresses : (a : ℕ) (m : MemoryManager) → SameAddresses m (mark_modified a m)
unfolding mark_modified
modified-SameAddresses a m =
    same (grind (arith, counters-put_page)) ((metadata-SameTranslation 0 a m).1)

-- The lists and counters of the tiers.
counters-leave_upwards :
    (t : MemoryTier) (a : ℕ) (m : MemoryManager) → counters_of (leave_upwards t a m) ≡ counters_of m
unfolding leave_upwards
counters-leave_upwards l1_gpu_local a m = refl
counters-leave_upwards l2_prefetch a m = refl
counters-leave_upwards l3_cxl_pool a m = refl

counters-leave_downwards :
    (t : MemoryTier) (a : ℕ) (m : MemoryManager)
    → counters_of (leave_downwards t a m) ≡ counters_of m
unfolding leave_downwards
counters-leave_downwards l1_gpu_local a m = refl
counters-leave_downwards l2_prefetch a m = refl
counters-leave_downwards l3_cxl_pool a m = refl

pub demoted-SameAddresses : (a : ℕ) (m : MemoryManager) → SameAddresses m (demote_body a m).0
unfolding demote_body
demoted-SameAddresses a m =
    same (grind (arith, counters-put_page, counters-leave_upwards))
      ((metadata-SameTranslation 0 a m).4)

counters-finish_promotion :
    (a : ℕ) (page : MemoryPage) (m : MemoryManager)
    → counters_of (finish_promotion a page m) ≡ counters_of m
unfolding finish_promotion update_lru
counters-finish_promotion a page m = grind (arith, counters-put_page, counters-leave_downwards)

-- A promotion that does not wait.
abbrev pub promotion : ℕ → MemoryManager → Option MemoryPage → MemoryManager
promotion a m p = unlocked (promoted a (locked m) p).0

pub promotion-SameAddresses :
    (a : ℕ) (m : MemoryManager) (p : Option MemoryPage)
    → m.page_table_locked ≡ false
    → get_page a m ≡ p
    → SameAddresses m (promotion a m p)
unfolding promoted
promotion-SameAddresses a m p free e =
    same (grind (arith, counters-finish_promotion)) (promoted-SameTranslation a m p e)

counters-forget :
    (t : MemoryTier) (a : ℕ) (m : MemoryManager) → counters_of (forget t a m) ≡ counters_of m
unfolding forget
counters-forget l1_gpu_local a m = refl
counters-forget l2_prefetch a m = refl
counters-forget l3_cxl_pool a m = refl

pub deallocate-SameCounters : (a : ℕ) (m : MemoryManager) → SameCounters m (deallocate a m)
unfolding deallocate
deallocate-SameCounters a m = same_counters (grind (arith, counters-forget))

pub reset-SameAddresses : (m : MemoryManager) → SameAddresses m (reset_statistics m)
unfolding reset_statistics translate_virtual_to_physical get_page page_addr
reset-SameAddresses m = same refl (λ b. refl)

-- A demotion that starts with the lock free.
pub demotion-SameAddresses :
    (a : ℕ) (m : MemoryManager)
    → m.page_table_locked ≡ false
    → SameAddresses m (unlocked (demote_body a (locked m)).0)
unfolding translate_virtual_to_physical get_page page_addr
demotion-SameAddresses a m free =
    let done = demoted-SameAddresses a (locked m) in
    record {
      counters = record {
        same_page_size = done.counters.same_page_size;
        same_next = done.counters.same_next;
        same_next_l1 = done.counters.same_next_l1;
        same_next_l2 = done.counters.same_next_l2;
        same_next_l3 = done.counters.same_next_l3;
        same_lock = sym free;
      };
      translation = done.translation;
    }
