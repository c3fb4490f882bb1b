-- ===== src/Integration/Room.antt =====
-- When L1 of the allocator (src/integration/memory_allocator.cpp) has room, and what a hint leaves.
use cxl_spec_kv.Common.{
  ℕ, ◌+◌, ◌*◌, ◌<◌, ◌≤◌, ◌≡◌, inl, inr, refl, true, false, List, Option, none, some, arith, length,
  Bool-cases, ◌∙◌,
}
use cxl_spec_kv.Common.Words.{u64_mod}
use cxl_spec_kv.Engine.Floats.{Floats}
use cxl_spec_kv.Memory.Types.{MemoryPage, MemoryManager}
use cxl_spec_kv.Memory.Pages.{can_fit_in_tier}
use cxl_spec_kv.Integration.Types.{answer, CxlMemoryAllocator}
use cxl_spec_kv.Integration.Methods.{prefetch_hint}
use cxl_spec_kv.Integration.Kept.{has_room, waits_for, Kept}
use cxl_spec_kv.Prefetch.Types.{Prefetcher}
use cxl_spec_kv.Prefetch.Methods.{prefetch, get_statistics}
use cxl_spec_kv.Integration.Books.{SameL1, IsBalanced}

-- L1 has room for `k` more pages.
abbrev pub Roomy : ℕ → MemoryManager → Type 0
Roomy k m = (length m.l1_pages + k) * 4096 ≤ m.l1_size_bytes

module _ (f : Floats) where
  pub SameL1-Roomy : (k : ℕ) (m n : MemoryManager) → SameL1 m n → Roomy (0 + k) m → Roomy k n
  SameL1-Roomy k m n same h = omega (arith, same.0, same.1, h)

  -- No page is promoted.
  pub still-Roomy : (k : ℕ) (m : MemoryManager) → Roomy (0 + k) m → Roomy k m
  still-Roomy k m h = omega (arith, h)

  -- Another manager that was only touched.
  pub touched-IsBalanced :
      (room : ℕ) (a : CxlMemoryAllocator f) (m n : MemoryManager) (b : IsBalanced f room m a)
      → Kept 1 m n
      → IsBalanced f room n (record a { memory_manager = some n })
  touched-IsBalanced room a m n b kept = record {
    ready = b.ready;
    has_manager = refl;
    free_lock = kept.free_lock;
    pages = kept.addresses.counters.same_page_size ∙ b.pages;
    l1_fits = omega (arith, kept.same_l1_size, b.l1_fits);
    start = omega (arith, kept.addresses.counters.same_next, b.start);
    fits = omega (arith, kept.addresses.counters.same_next, b.fits);
    below = rw (kept.addresses.counters.same_next) b.below;
    distinct = b.distinct;
    in_use = b.in_use;
    open_handles = b.open_handles;
    few_bytes = omega (arith, kept.addresses.counters.same_next, b.few_bytes);
    few_calls = omega (arith, kept.addresses.counters.same_next, b.few_calls);
    peak = b.peak;
  }

  pub waits-Roomy :
      (p : Option MemoryPage) (m : MemoryManager)
      → m.page_size ≡ 4096
      → m.l1_size_bytes < u64_mod
      → Roomy 1 m
      → waits_for p (has_room m) ≡ true
      → ⊥
  unfolding waits_for has_room can_fit_in_tier
  waits-Roomy none m pages fits enough w = cc
  waits-Roomy (some page) m pages fits enough w = grind arith

  pub waits_for-Roomy :
      (p : Option MemoryPage) (m : MemoryManager)
      → m.page_size ≡ 4096
      → m.l1_size_bytes < u64_mod
      → Roomy 1 m
      → waits_for p (has_room m) ≡ false
  waits_for-Roomy p m pages fits enough = elim (Bool-cases (waits_for p (has_room m))) [
    | inl w ↦ absurd (waits-Roomy p m pages fits enough w)
    | inr e ↦ e
  ]

  -- So many more allocations and bytes, and no release.
  abbrev pub Grown : ℕ → ℕ → CxlMemoryAllocator f → CxlMemoryAllocator f → Type 0
  Grown number size a b =
      (b.stats.total_allocations ≡ a.stats.total_allocations + number)
      × (b.stats.total_deallocations ≡ a.stats.total_deallocations)
      × (b.stats.current_allocated_bytes ≡ a.stats.current_allocated_bytes + size)

  module _ (predict_top_k : List ℕ → ℕ → List (ℕ × f.Float)) (now : ℕ → ℕ) (latency_us : ℕ)
      (history : List ℕ) (layer : ℕ) where
    -- A hint answers, keeps the books and counts nothing.
    pub prefetch_hint-result :
        (room : ℕ) (m : MemoryManager) (a : CxlMemoryAllocator f)
        (prefetcher : Option (Prefetcher f))
        → a.prefetcher ≡ prefetcher
        → IsBalanced f room m a
        → (h : CxlMemoryAllocator f) × (prefetch_hint f predict_top_k now latency_us history layer a
            ≡ answer h)
          × IsBalanced f room m h
          × Grown 0 0 a h
          × (h.handle_map ≡ a.handle_map)
    unfolding prefetch_hint
    prefetch_hint-result room m a none e b =
        (a, ground (arith, b.ready), b, (omega arith, refl, omega arith), refl)
    prefetch_hint-result room m a (some p) e b =
        let after = (prefetch f predict_top_k now latency_us m history layer 0 p).0 in
        let hinted = record a {
          prefetcher = some after;
          stats = record a.stats { prefetch_hit_rate = (get_statistics f after).hit_rate };
        } in
        let balanced : IsBalanced f room m hinted = record {
          ready = b.ready;
          has_manager = b.has_manager;
          free_lock = b.free_lock;
          pages = b.pages;
          l1_fits = b.l1_fits;
          start = b.start;
          fits = b.fits;
          below = b.below;
          distinct = b.distinct;
          in_use = b.in_use;
          open_handles = b.open_handles;
          few_bytes = b.few_bytes;
          few_calls = b.few_calls;
          peak = b.peak;
        } in
        (
          hinted,
          ground (arith, b.ready, b.has_manager),
          balanced,
          (omega arith, refl, omega arith),
          refl,
        )
