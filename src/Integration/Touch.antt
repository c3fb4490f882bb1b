-- ===== src/Integration/Touch.antt =====
-- When an access of the allocator (src/integration/memory_allocator.cpp) has to wait for the lock of
-- the memory manager, and what it leaves of the manager otherwise.
use cxl_spec_kv.Common.{
  ℕ, ◌≡◌, inl, inr, refl, Bool, true, false, ◌&&◌, not, List, [], ◌∷◌, ◌++◌, Option, none, some,
  if◌then◌else◌, ltb, ap, subst, arith, Bool-cases, ◌∙◌,
}
use cxl_spec_kv.Common.Words.{inc32}
use cxl_spec_kv.Common.Assoc.{lookup-insert}
use cxl_spec_kv.Memory.Types.{
  l1_gpu_local, l2_prefetch, l3_cxl_pool, MemoryTier, MemoryPage, MemoryManager,
}
use cxl_spec_kv.Memory.Pages.{
  same_tier, get_page, put_page, page_addr, can_fit_in_tier, update_access_tracking, update_lru,
  is_in_cache, is_hot_page,
}
use cxl_spec_kv.Memory.Lock.{is_empty, must_evict, promotable}
use cxl_spec_kv.Integration.Types.{Reply, answer, hangs}
use cxl_spec_kv.Integration.Methods.{promote, touch}
use cxl_spec_kv.Memory.Addresses.{promotion}
use cxl_spec_kv.Integration.Kept.{
  wants_l1, has_room, waits_for, waits, Kept, touched, get_page-tracked, tracked-Kept, Kept-trans,
  hot-Kept, promotion-Kept, promote-result,
}

is_empty-append : (xs : List ℕ) (x : ℕ) → is_empty (xs ++ x ∷ []) ≡ false
unfolding is_empty
is_empty-append [] x = refl
is_empty-append (y ∷ ys) x = refl

has_room-tracked :
    (now a : ℕ) (m : MemoryManager) → has_room (update_access_tracking now a m) ≡ has_room m
unfolding has_room can_fit_in_tier update_access_tracking get_page put_page page_addr update_lru
has_room-tracked now a m = grind arith

listed-tracked :
    (now a : ℕ) (m : MemoryManager) (page : MemoryPage)
    → get_page a m ≡ some page
    → is_empty (update_access_tracking now a m).l1_lru_list ≡ false
unfolding update_access_tracking put_page update_lru
listed-tracked now a m page e = grind (arith, is_empty-append)

must_evict-tracked :
    (now a : ℕ) (m : MemoryManager) (page : MemoryPage)
    → get_page a m ≡ some page
    → must_evict a (update_access_tracking now a m)
      ≡ (not (same_tier page.tier l1_gpu_local) && not (has_room m))
unfolding must_evict promotable has_room
must_evict-tracked now a m page e =
    let found = get_page-tracked now a m (some page) e in
    let room = has_room-tracked now a m in
    let listed : is_empty (update_access_tracking now a m).l1_lru_list ≡ false =
      listed-tracked now a m page e in
    ground (arith, found, room, listed)

must_evict-hot : (a : ℕ) (m : MemoryManager) → must_evict a (is_hot_page a m).0 ≡ must_evict a m
unfolding must_evict promotable is_hot_page get_page put_page page_addr can_fit_in_tier
must_evict-hot a m = grind (arith, lookup-insert {V = MemoryPage})

is_in_cache-tier :
    (a : ℕ) (t : MemoryTier) (m : MemoryManager) (page : MemoryPage)
    → get_page a m ≡ some page
    → is_in_cache a t m ≡ same_tier page.tier t
unfolding is_in_cache
is_in_cache-tier a t m page e = ground arith

is_hot_page-result :
    (a : ℕ) (m : MemoryManager) (page : MemoryPage)
    → get_page a m ≡ some page
    → (is_hot_page a m).1 ≡ ltb 10 page.access_count
unfolding is_hot_page
is_hot_page-result a m page e = ground arith

touch-tier :
    (now a : ℕ) (m : MemoryManager) (page : MemoryPage) (t : MemoryTier)
    → m.page_table_locked ≡ false
    → get_page a m ≡ some page
    → page.tier ≡ t
    → touch now a m ≡ (
        let tracked = update_access_tracking now a m in
        let looked = (is_hot_page a tracked).0 in
        elim t [
          | l1_gpu_local ↦ answer tracked
          | l2_prefetch ↦
              if ltb 10 (inc32 page.access_count) then promote a looked else answer looked
          | l3_cxl_pool ↦ promote a tracked
        ])
unfolding touch same_tier
touch-tier now a m page t free e h =
    let tracked = update_access_tracking now a m in
    let found = get_page-tracked now a m (some page) e in
    let l1 = is_in_cache-tier a l1_gpu_local tracked (touched now page) found in
    let l2 = is_in_cache-tier a l2_prefetch tracked (touched now page) found in
    let hot = is_hot_page-result a tracked (touched now page) found in
    elim t [
      | l1_gpu_local ↦ ground (arith, l1, h)
      | l2_prefetch ↦ ground (arith, l1, l2, h, hot)
      | l3_cxl_pool ↦ ground (arith, l1, l2, h)
    ]

must_evict-unknown : (a : ℕ) (m : MemoryManager) → get_page a m ≡ none → must_evict a m ≡ false
unfolding must_evict promotable
must_evict-unknown a m e = ground arith

touch-unknown : (now a : ℕ) (m : MemoryManager) → get_page a m ≡ none → touch now a m ≡ promote a m
unfolding touch update_access_tracking is_in_cache
touch-unknown now a m e = ground arith

-- How a call ends: it hangs, or it answers with a manager that keeps what it should.
abbrev pub Ends : Bool → MemoryManager → Reply MemoryManager → Type 0
Ends waiting m r =
    (waiting ≡ true → r ≡ hangs)
    × (waiting ≡ false → (n : MemoryManager) × (r ≡ answer n) × Kept 1 m n)

promote-Ends :
    (a : ℕ) (m : MemoryManager)
    → m.page_table_locked ≡ false
    → Ends (must_evict a m) m (promote a m)
promote-Ends a m free =
    let result = promote-result a m free in
    (
      λ e. rw (result, e) refl,
      λ e. (promotion a m (get_page a m), rw (result, e) refl, promotion-Kept a m _ free refl),
    )

-- A call that follows one with no promotion.
Ends-after :
    (waiting : Bool) (m n : MemoryManager) (r : Reply MemoryManager)
    → Kept 0 m n
    → Ends waiting n r
    → Ends waiting m r
Ends-after waiting m n r kept ends =
    (ends.0, λ e. let rest = ends.1 e in (rest.0, rest.1, Kept-trans kept rest.2))

Kept-weaken : {m n : MemoryManager} → Kept 0 m n → Kept 1 m n
Kept-weaken kept = record {
  addresses = kept.addresses;
  same_l1_size = kept.same_l1_size;
  one_more = omega (arith, kept.one_more);
  free_lock = kept.free_lock;
}

answer-Ends : (m n : MemoryManager) → Kept 0 m n → Ends false m (answer n)
answer-Ends m n kept = (λ e. absurd (cc), λ e. (n, refl, Kept-weaken kept))

-- A promotion after the access was counted, and perhaps the page asked whether it is hot.
promote_after-Ends :
    (now a : ℕ) (m n : MemoryManager) (page : MemoryPage)
    → get_page a m ≡ some page
    → same_tier page.tier l1_gpu_local ≡ false
    → must_evict a n ≡ must_evict a (update_access_tracking now a m)
    → Kept 0 m n
    → Ends (not (has_room m)) m (promote a n)
promote_after-Ends now a m n page e outside same kept =
    let evict : must_evict a n ≡ not (has_room m) =
      same
      ∙ must_evict-tracked now a m page e
      ∙ ap (λ (b : Bool). not b && not (has_room m)) outside in
    Ends-after (not (has_room m)) m n (promote a n) kept
      (subst (λ b. Ends b n (promote a n)) evict (promote-Ends a n kept.free_lock))

looked-Kept :
    (now a : ℕ) (m : MemoryManager)
    → m.page_table_locked ≡ false
    → Kept 0 m (is_hot_page a (update_access_tracking now a m)).0
looked-Kept now a m free =
    let counted = tracked-Kept now a m free in
    Kept-trans counted (hot-Kept a (update_access_tracking now a m) counted.free_lock)

touch-tier-Ends :
    (now a : ℕ) (m : MemoryManager) (page : MemoryPage) (t : MemoryTier)
    → m.page_table_locked ≡ false
    → get_page a m ≡ some page
    → page.tier ≡ t
    → Ends (wants_l1 page.tier page.access_count && not (has_room m)) m (touch now a m)
unfolding wants_l1 same_tier
touch-tier-Ends now a m page l1_gpu_local free e h =
    rw (h, touch-tier now a m page l1_gpu_local free e h)
      (answer-Ends m (update_access_tracking now a m) (tracked-Kept now a m free))
touch-tier-Ends now a m page l2_prefetch free e h =
    let tracked = update_access_tracking now a m in
    let looked = looked-Kept now a m free in
    let result = touch-tier now a m page l2_prefetch free e h in
    elim (Bool-cases (ltb 10 (inc32 page.access_count))) [
      | inl hot ↦
          rw (h, result, hot)
            (promote_after-Ends now a m (is_hot_page a tracked).0 page e (rw h refl)
              (must_evict-hot a tracked) looked)
      | inr cold ↦ rw (h, result, cold) (answer-Ends m (is_hot_page a tracked).0 looked)
    ]
touch-tier-Ends now a m page l3_cxl_pool free e h =
    rw (h, touch-tier now a m page l3_cxl_pool free e h)
      (promote_after-Ends now a m (update_access_tracking now a m) page e (rw h refl) refl
        (tracked-Kept now a m free))

touch_page-Ends :
    (now a : ℕ) (m : MemoryManager) (p : Option MemoryPage)
    → m.page_table_locked ≡ false
    → get_page a m ≡ p
    → Ends (waits_for p (has_room m)) m (touch now a m)
unfolding waits_for
touch_page-Ends now a m none free e =
    let no_eviction : must_evict a m ≡ false = must_evict-unknown a m e in
    rw (touch-unknown now a m e)
      (subst (λ b. Ends b m (promote a m)) no_eviction (promote-Ends a m free))
touch_page-Ends now a m (some page) free e = touch-tier-Ends now a m page page.tier free e refl

-- An access waits for the manager's lock for ever exactly when it has to evict, and otherwise ends
-- with at most one page moved and every translation as it was.
pub touch-Ends :
    (now a : ℕ) (m : MemoryManager)
    → m.page_table_locked ≡ false
    → Ends (waits a m) m (touch now a m)
touch-Ends now a m free = touch_page-Ends now a m (get_page a m) free refl
