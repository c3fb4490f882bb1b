-- ===== src/Integration/Kept.antt =====
-- What an access of the allocator (src/integration/memory_allocator.cpp) keeps of the memory manager.
use cxl_spec_kv.Common.{
  ℕ, ◌+◌, ◌≡◌, ◌≤◌, refl, Bool, true, false, ◌&&◌, not, [], ◌∷◌, Option, none, some, if◌then◌else◌,
  ltb, length, arith, ◌∙◌, length-append,
}
use mathlib.Core.Option
use cxl_spec_kv.Common.Words.{inc32}
use cxl_spec_kv.Common.Assoc.{lookup-insert}
use cxl_spec_kv.Memory.Types.{
  l1_gpu_local, l2_prefetch, l3_cxl_pool, MemoryTier, MemoryPage, MemoryManager, with_page_lock,
}
use cxl_spec_kv.Memory.Pages.{
  get_page, put_page, page_addr, can_fit_in_tier, update_access_tracking, update_lru, is_hot_page,
}
use cxl_spec_kv.Memory.Migrate.{promote_to_l1, finish_promotion, leave_downwards}
use cxl_spec_kv.Memory.Lock.{must_evict, promoted, promote_body-locked, locked}
use cxl_spec_kv.Memory.Addresses.{
  SameAddresses, SameAddresses-trans, tracked-SameAddresses, hot-SameAddresses, promotion,
  promotion-SameAddresses,
}
use cxl_spec_kv.Integration.Types.{answer, hangs}
use cxl_spec_kv.Integration.Methods.{promote}

-- The access moves the page to L1: from L3 always, from L2 with more than ten accesses.
unfoldable pub wants_l1 : MemoryTier → ℕ → Bool
wants_l1 l1_gpu_local count = false
wants_l1 l2_prefetch count = ltb 10 (inc32 count)
wants_l1 l3_cxl_pool count = true

-- L1 has room for one more page.
unfoldable pub has_room : MemoryManager → Bool
unfolding can_fit_in_tier
has_room m = can_fit_in_tier l1_gpu_local m.page_size m

unfoldable pub waits_for : Option MemoryPage → Bool → Bool
waits_for none room = false
waits_for (some page) room = wants_l1 page.tier page.access_count && not room

-- The access has to evict.
abbrev pub waits : ℕ → MemoryManager → Bool
waits addr m = waits_for (get_page addr m) (has_room m)

-- What stays when pages are touched, with at most `moves` promotions.
pub record Kept (moves : ℕ) (m n : MemoryManager) : Type 0 where
  pub addresses : SameAddresses m n
  pub same_l1_size : n.l1_size_bytes ≡ m.l1_size_bytes
  pub one_more : length n.l1_pages ≤ length m.l1_pages + moves
  pub free_lock : n.page_table_locked ≡ false

-- A page after one more access.
abbrev pub touched : ℕ → MemoryPage → MemoryPage
touched now page = record page { access_count = inc32 page.access_count; last_access_time = now }

pub get_page-tracked :
    (now a : ℕ) (m : MemoryManager) (p : Option MemoryPage)
    → get_page a m ≡ p
    → get_page a (update_access_tracking now a m) ≡ Option.map (touched now) p
unfolding get_page update_access_tracking put_page page_addr update_lru
get_page-tracked now a m none e = grind arith
get_page-tracked now a m (some page) e = grind (arith, lookup-insert {V = MemoryPage})

pub tracked-Kept :
    (now a : ℕ) (m : MemoryManager)
    → m.page_table_locked ≡ false
    → Kept 0 m (update_access_tracking now a m)
unfolding update_access_tracking get_page put_page page_addr update_lru
tracked-Kept now a m free = record {
  addresses = tracked-SameAddresses now a m;
  same_l1_size = grind arith;
  one_more = grind arith;
  free_lock = grind arith;
}

pub Kept-trans : {j k : ℕ} {m n o : MemoryManager} → Kept j m n → Kept k n o → Kept (j + k) m o
Kept-trans h g = record {
  addresses = SameAddresses-trans h.addresses g.addresses;
  same_l1_size = g.same_l1_size ∙ h.same_l1_size;
  one_more = omega (arith, h.one_more, g.one_more);
  free_lock = g.free_lock;
}

pub hot-Kept :
    (a : ℕ) (m : MemoryManager) → m.page_table_locked ≡ false → Kept 0 m (is_hot_page a m).0
unfolding is_hot_page get_page put_page page_addr
hot-Kept a m free = record {
  addresses = hot-SameAddresses a m;
  same_l1_size = grind arith;
  one_more = grind arith;
  free_lock = grind arith;
}

leave_downwards-l1 :
    (t : MemoryTier) (a : ℕ) (m : MemoryManager)
    → ((leave_downwards t a m).l1_size_bytes ≡ m.l1_size_bytes)
      × ((leave_downwards t a m).l1_pages ≡ m.l1_pages)
unfolding leave_downwards
leave_downwards-l1 l1_gpu_local a m = (refl, refl)
leave_downwards-l1 l2_prefetch a m = (refl, refl)
leave_downwards-l1 l3_cxl_pool a m = (refl, refl)

pub promotion-Kept :
    (a : ℕ) (m : MemoryManager) (p : Option MemoryPage)
    → m.page_table_locked ≡ false
    → get_page a m ≡ p
    → Kept 1 m (promotion a m p)
unfolding promoted finish_promotion put_page page_addr update_lru
promotion-Kept a m none free e = record {
  addresses = promotion-SameAddresses a m none free e;
  same_l1_size = refl;
  one_more = omega arith;
  free_lock = refl;
}
promotion-Kept a m (some page) free e =
    let l1 =
      leave_downwards-l1 page.tier a
        (put_page a (record page { tier = l1_gpu_local }) (locked m)) in
    let more = length-append m.l1_pages (a ∷ []) in
    record {
      addresses = promotion-SameAddresses a m (some page) free e;
      same_l1_size = ground (arith, l1);
      one_more = ground (arith, l1, more);
      free_lock = ground arith;
    }

pub promote-result :
    (a : ℕ) (m : MemoryManager)
    → m.page_table_locked ≡ false
    → promote a m ≡ (if must_evict a m then hangs else answer (promotion a m (get_page a m)))
unfolding promote promote_to_l1 with_page_lock
promote-result a m free = ground (arith, promote_body-locked a m)
