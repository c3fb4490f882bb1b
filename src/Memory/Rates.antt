-- ===== src/Memory/Rates.antt =====
-- The hit rates of `CXLMemoryManager::get_statistics` (src/cxl_memory/cxl_memory_manager.cpp).
use cxl_spec_kv.Common.{
  ℕ, ◌<◌, ◌≡◌, refl, List, [], ◌∷◌, Option, none, some, if◌then◌else◌, ltb, arith, subst,
}
use cxl_spec_kv.Common.Words.{add64, u64_mod}
use cxl_spec_kv.Engine.Floats.{Floats}
use cxl_spec_kv.Memory.Types.{
  MemoryTier, l1_gpu_local, l2_prefetch, l3_cxl_pool, MemoryPage, Statistics, MemoryManager,
  Outcome, returned, deadlock, ◌>>=◌, create, with_page_lock,
}
use cxl_spec_kv.Memory.Pages.{
  get_statistics, allocate, reserve, deallocate, forget, invalidate_page, mark_modified, put_page,
  update_access_tracking, update_lru, count_access, is_hot_page, reset_statistics, get_page,
}
use cxl_spec_kv.Memory.Migrate.{
  promote_to_l1, demote_to_l3, demote_body, finish_promotion, leave_upwards, leave_downwards,
}
use cxl_spec_kv.Memory.Lock.{promoted, locked, promote_body-locked}
use cxl_spec_kv.Memory.Histories.{
  Call, allocate_call, deallocate_call, promote_call, demote_call, invalidate_call, modify_call,
  hot_call, track_call, reset_call, step, run,
}

module _ (f : Floats) where
  -- A rate that stays 0.0 if nothing was counted.
  unfoldable pub rate_of : ℕ → ℕ → f.Double
  rate_of hits misses =
      let total = add64 hits misses in
      if ltb 0 total then f.double_div (f.double_of hits) (f.double_of total) else f.double_of 0

  unfoldable pub l1_hit_rate : MemoryManager → f.Double
  unfolding rate_of
  l1_hit_rate m = let s = get_statistics m in rate_of s.l1_hits s.l1_misses

  unfoldable pub l2_hit_rate : MemoryManager → f.Double
  unfolding rate_of
  l2_hit_rate m = let s = get_statistics m in rate_of s.l2_hits s.l2_misses

-- No miss is counted, and the hits are 64-bit words.
abbrev NoMisses : Statistics → Type 0
NoMisses s = (s.l1_misses ≡ 0) × (s.l2_misses ≡ 0) × (s.l1_hits < u64_mod) × (s.l2_hits < u64_mod)

-- What a call that returns leaves.
abbrev Counts : Outcome MemoryManager → Type 0
Counts (returned m) = NoMisses m.stats
Counts deadlock = Unit

reserve-stats : (t : MemoryTier) (r : ℕ) (m : MemoryManager) → (reserve t r m).0.stats ≡ m.stats
unfolding reserve
reserve-stats l1_gpu_local r m = refl
reserve-stats l2_prefetch r m = refl
reserve-stats l3_cxl_pool r m = refl

forget-stats : (t : MemoryTier) (a : ℕ) (m : MemoryManager) → (forget t a m).stats ≡ m.stats
unfolding forget
forget-stats l1_gpu_local a m = refl
forget-stats l2_prefetch a m = refl
forget-stats l3_cxl_pool a m = refl

leave_upwards-NoMisses :
    (t : MemoryTier) (a : ℕ) (m : MemoryManager)
    → NoMisses m.stats
    → NoMisses (leave_upwards t a m).stats
unfolding leave_upwards
leave_upwards-NoMisses l1_gpu_local a m h = h
leave_upwards-NoMisses l2_prefetch a m h = h
leave_upwards-NoMisses l3_cxl_pool a m h = h

leave_downwards-NoMisses :
    (t : MemoryTier) (a : ℕ) (m : MemoryManager)
    → NoMisses m.stats
    → NoMisses (leave_downwards t a m).stats
unfolding leave_downwards
leave_downwards-NoMisses l1_gpu_local a m h = h
leave_downwards-NoMisses l2_prefetch a m h = h
leave_downwards-NoMisses l3_cxl_pool a m h = h

count_access-NoMisses : (t : MemoryTier) (s : Statistics) → NoMisses s → NoMisses (count_access t s)
unfolding count_access
count_access-NoMisses l1_gpu_local s h = ground arith
count_access-NoMisses l2_prefetch s h = ground arith
count_access-NoMisses l3_cxl_pool s h = h

put_page-stats : (a : ℕ) (p : MemoryPage) (m : MemoryManager) → (put_page a p m).stats ≡ m.stats
unfolding put_page
put_page-stats a p m = refl

demote_body-NoMisses :
    (a : ℕ) (m : MemoryManager) → NoMisses m.stats → NoMisses (demote_body a m).0.stats
unfolding demote_body
demote_body-NoMisses a m h = grind (arith, put_page-stats, leave_upwards-NoMisses)

promoted-NoMisses :
    (a : ℕ) (m : MemoryManager) (p : Option MemoryPage)
    → NoMisses m.stats
    → NoMisses (promoted a m p).0.stats
unfolding promoted finish_promotion update_lru
promoted-NoMisses a m none h = h
promoted-NoMisses a m (some page) h = grind (arith, put_page-stats, leave_downwards-NoMisses)

step-Counts : (c : Call) (m : MemoryManager) → NoMisses m.stats → Counts (step c m)
unfolding step allocate deallocate invalidate_page mark_modified is_hot_page update_access_tracking
    update_lru reset_statistics demote_to_l3 promote_to_l1 with_page_lock
step-Counts (allocate_call now size layer t) m h = grind (arith, reserve-stats)
step-Counts (deallocate_call a) m h = grind (arith, forget-stats)
step-Counts (promote_call a) m h =
    grind (arith, promote_body-locked a m, promoted-NoMisses a (locked m) (get_page a m))
step-Counts (demote_call a) m h = grind (arith, demote_body-NoMisses a (locked m))
step-Counts (invalidate_call a) m h = grind (arith, put_page-stats)
step-Counts (modify_call a) m h = grind (arith, put_page-stats)
step-Counts (hot_call a) m h = grind (arith, put_page-stats)
step-Counts (track_call now a) m h = grind (arith, put_page-stats, count_access-NoMisses)
step-Counts reset_call m h = ground arith

then-Counts :
    (r : Outcome MemoryManager) (next : MemoryManager → Outcome MemoryManager)
    → ((n : MemoryManager) → NoMisses n.stats → Counts (next n))
    → Counts r
    → Counts (r >>= next)
then-Counts (returned n) next follow h = follow n h
then-Counts deadlock next follow h = tt

run-Counts : (calls : List Call) (m : MemoryManager) → NoMisses m.stats → Counts (run calls m)
unfolding run
run-Counts [] m h = h
run-Counts (c ∷ calls) m h =
    then-Counts (step c m) (run calls) (run-Counts calls) (step-Counts c m h)

-- The rate of hits when there are no misses: a number divided by itself, if it is not 0.
abbrev pub all_hits : (f : Floats) → ℕ → f.Double
all_hits f hits =
    if ltb 0 hits then f.double_div (f.double_of hits) (f.double_of hits) else f.double_of 0

rate_of-all_hits :
    (f : Floats) (hits misses : ℕ)
    → misses ≡ 0
    → hits < u64_mod
    → rate_of f hits misses ≡ all_hits f hits
unfolding rate_of
rate_of-all_hits f hits misses e lt =
    let total : add64 hits misses ≡ hits = omega arith in rw total refl

-- After any sequence of calls on a new manager that all return, the hit rates of L1 and of L2 are
-- 0.0, or a number of hits divided by itself: no access is ever counted as a miss.
pub run-hit_rates :
    (f : Floats) (l1 l2 l3 page_size : ℕ) (calls : List Call) (m : MemoryManager)
    → run calls (create l1 l2 l3 page_size) ≡ returned m
    → (l1_hit_rate f m ≡ all_hits f m.stats.l1_hits)
      × (l2_hit_rate f m ≡ all_hits f m.stats.l2_hits)
unfolding create l1_hit_rate l2_hit_rate get_statistics
run-hit_rates f l1 l2 l3 page_size calls m e =
    let start : NoMisses (create l1 l2 l3 page_size).stats =
      (refl, refl, omega arith, omega arith) in
    let counts : NoMisses m.stats =
      subst Counts e (run-Counts calls (create l1 l2 l3 page_size) start) in
    (
      rate_of-all_hits f m.stats.l1_hits m.stats.l1_misses (counts.0) (counts.2),
      rate_of-all_hits f m.stats.l2_hits m.stats.l2_misses (counts.1) (counts.3),
    )
