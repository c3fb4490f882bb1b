-- ===== src/Prefetch/Asked.antt =====
-- Which of the predictions `SpeculativePrefetcher::prefetch`
-- (src/prefetcher/speculative_prefetcher.cpp) asks for, read off the page table.
use cxl_spec_kv.Common.{
  ℕ, ◌+◌, ◌*◌, ◌/◌, ◌^◌, ◌<◌, ◌≡◌, refl, Bool, true, false, not, List, [], ◌∷◌, Option, none, some,
  if◌then◌else◌, length, map, arith, Bool-cases, inl, inr, ap, ◌∙◌,
}
use cxl_spec_kv.Common.Assoc.{lookup}
use cxl_spec_kv.Engine.Floats.{Floats}
use cxl_spec_kv.Memory.Types.{
  MemoryManager, MemoryPage, MemoryTier, l1_gpu_local, l2_prefetch, l3_cxl_pool,
}
use cxl_spec_kv.Memory.Pages.{get_page, page_addr, is_in_cache, same_tier}
use cxl_spec_kv.Prefetch.Types.{Prefetcher, PrefetchRequest}
use cxl_spec_kv.Prefetch.Methods.{
  predicted_addr, is_cached, prefetch_loop, issue_dma_prefetch, prefetch,
}
use cxl_spec_kv.Prefetch.Requests.{predictions}
use cxl_spec_kv.Prefetch.Misses.{predicted_addr-low}

-- The elements at which a test holds.
unfoldable pub keep {ℓ} : {A : Type ℓ} → (A → Bool) → List A → List A
keep test [] = []
keep test (x ∷ xs) = if test x then x ∷ keep test xs else keep test xs

-- The page of an address is unknown, or it lies in the CXL pool.
unfoldable pub is_far : MemoryManager → ℕ → Bool
is_far m addr = elim (lookup (addr / m.page_size * m.page_size) m.page_table) [
  | none ↦ true
  | some page ↦ elim page.tier [ l1_gpu_local ↦ false | l2_prefetch ↦ false | l3_cxl_pool ↦ true ]
]

tier-is_far :
    (addr : ℕ) (m : MemoryManager) (page : MemoryPage) (tier : MemoryTier)
    → lookup (addr / m.page_size * m.page_size) m.page_table ≡ some page
    → page.tier ≡ tier
    → is_cached addr m ≡ not (is_far m addr)
unfolding is_cached is_in_cache get_page page_addr same_tier is_far
tier-is_far addr m page l1_gpu_local e t = ground (arith, e, t)
tier-is_far addr m page l2_prefetch e t = ground (arith, e, t)
tier-is_far addr m page l3_cxl_pool e t = ground (arith, e, t)

found-is_far :
    (addr : ℕ) (m : MemoryManager) (found : Option MemoryPage)
    → lookup (addr / m.page_size * m.page_size) m.page_table ≡ found
    → is_cached addr m ≡ not (is_far m addr)
unfolding is_cached is_in_cache get_page page_addr is_far
found-is_far addr m none e = ground (arith, e)
found-is_far addr m (some page) e = tier-is_far addr m page page.tier e refl

is_cached-is_far : (addr : ℕ) (m : MemoryManager) → is_cached addr m ≡ not (is_far m addr)
is_cached-is_far addr m =
    found-is_far addr m (lookup (addr / m.page_size * m.page_size) m.page_table) refl

module _ (f : Floats) where
  -- A page that is asked for: its address, the token and the confidence.
  abbrev pub Wish : Type 0
  Wish = ℕ × ℕ × f.Float

  -- The predictions from index `i` on with their addresses: 2^16 for each layer, and the position.
  abbrev pub wishes : ℕ → ℕ → List (ℕ × f.Float) → List Wish
  wishes layer i [] = []
  wishes layer i ((token, confidence) ∷ rest) =
      (layer * 2 ^ 16 + (i + 1), token, confidence) ∷ wishes layer (i + 1) rest

  abbrev pub wish_of : PrefetchRequest f → Wish
  wish_of r = (r.virtual_addr, r.predicted_token_id, r.confidence)

  loop-wishes :
      (now : ℕ → ℕ) (m : MemoryManager) (layer i : ℕ) (tokens : List (ℕ × f.Float))
      (p : Prefetcher f)
      → layer < 2 ^ 16
      → i + length tokens < 2 ^ 16
      → map wish_of (prefetch_loop f now m layer i tokens p).1
        ≡ keep (λ (w : Wish). is_far m w.0) (wishes layer i tokens)
  unfolding prefetch_loop keep
  loop-wishes now m layer i [] p l few = refl
  loop-wishes now m layer i ((token, confidence) ∷ tokens) p l few =
      let addr = predicted_addr-low layer i l (omega arith) in
      let place = layer * 2 ^ 16 + (i + 1) in
      let far : is_cached (predicted_addr layer i) m ≡ not (is_far m place) =
        ap (λ (a : ℕ). is_cached a m) addr ∙ is_cached-is_far place m in
      elim (Bool-cases (is_far m place)) [
        | inl away ↦
            let req : PrefetchRequest f = record {
              virtual_addr = predicted_addr layer i;
              layer_id = layer;
              predicted_token_id = token;
              confidence = confidence;
              timestamp = now i;
            } in
            let miss : is_cached (predicted_addr layer i) m ≡ false = far ∙ ap not away in
            let rest =
              loop-wishes now m layer (i + 1) tokens (issue_dma_prefetch f req p) l (omega arith) in
            rw (miss, prefetch_loop, away, keep)
              (ap
                  (λ (a : ℕ).
                    (a, token, confidence)
                    ∷ map wish_of
                        (prefetch_loop f now m layer (i + 1) tokens (issue_dma_prefetch f req p)).1)
                  addr
                ∙ ap (◌∷◌ (place, token, confidence)) rest)
        | inr near ↦
            let hit : is_cached (predicted_addr layer i) m ≡ true = far ∙ ap not near in
            rw (hit, prefetch_loop, near, keep)
              (loop-wishes now m layer (i + 1) tokens p l (omega arith))
      ]

  -- For a layer below 2^16 and fewer than 2^16 predictions, a call asks for the predictions, with their
  -- tokens and confidences and in their order, whose page the page table of the memory manager does
  -- not have or has in the CXL pool, and for no others. The address of the prediction at index `i` is
  -- `layer * 2^16 + i + 1`.
  pub prefetch-wishes :
      (predict_top_k : List ℕ → ℕ → List (ℕ × f.Float)) (now : ℕ → ℕ) (latency_us : ℕ)
      (m : MemoryManager) (history : List ℕ) (layer depth : ℕ) (p : Prefetcher f)
      → layer < 2 ^ 16
      → length (predictions f predict_top_k now latency_us m history layer depth p) < 2 ^ 16
      → map wish_of (prefetch f predict_top_k now latency_us m history layer depth p).1
        ≡ keep
            (λ (w : Wish). is_far m w.0)
            (wishes layer 0 (predictions f predict_top_k now latency_us m history layer depth p))
  unfolding prefetch
  prefetch-wishes predict_top_k now latency_us m history layer depth p l few =
      loop-wishes now m layer 0 (predictions f predict_top_k now latency_us m history layer depth p)
        p l (omega arith)
