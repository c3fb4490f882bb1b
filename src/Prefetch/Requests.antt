-- ===== src/Prefetch/Requests.antt =====
-- What `SpeculativePrefetcher::prefetch` (src/prefetcher/speculative_prefetcher.cpp) asks for, and
-- what its queue keeps.
use cxl_spec_kv.Common.{
  ℕ, zero, suc, ◌+◌, ◌*◌, ◌^◌, ◌≤◌, ◌<◌, ◌≡◌, refl, List, [], ◌∷◌, ◌++◌, length, ltb, if◌then◌else◌,
  arith, map, ◌∙◌, sym, ap, Bool-cases, inl, inr,
}
use cxl_spec_kv.Common.Words.{add64, shl64}
use cxl_spec_kv.Common.Bits.{bit_or-shifted}
use cxl_spec_kv.Engine.Floats.{Floats}
use cxl_spec_kv.Memory.Types.{MemoryManager}
use cxl_spec_kv.Prefetch.Types.{Prefetcher, PrefetchRequest}
use cxl_spec_kv.Prefetch.Window.{last, last_all, push_all, push_all-last}
use cxl_spec_kv.Prefetch.Methods.{
  compute_kv_address, predicted_addr, is_cached, issue_dma_prefetch, prefetch_loop, prefetch,
  count_prefetches,
}

-- Below 2^16 layers and positions, a KV address is the number with the three fields as digits.
pub compute_kv_address-fields :
    (req layer position : ℕ)
    → req < 2 ^ 32
    → layer < 2 ^ 16
    → position < 2 ^ 16
    → compute_kv_address req layer position ≡ req * 2 ^ 32 + layer * 2 ^ 16 + position
unfolding compute_kv_address
compute_kv_address-fields req layer position r l p =
    let high : shl64 req 32 ≡ req * 2 ^ 32 = omega arith in
    let mid : shl64 layer 16 ≡ layer * 2 ^ 16 = omega arith in
    let upper : req * 2 ^ 32 + layer * 2 ^ 16 ≡ (req * 2 ^ 16 + layer) * 2 ^ 16 = omega arith in
    rw (high, mid, bit_or-shifted 32 req (layer * 2 ^ 16) (omega arith), upper)
      (bit_or-shifted 16 (req * 2 ^ 16 + layer) position p)

-- The addresses of the predictions from index `i` on that are in neither cache.
unfoldable pub uncached : MemoryManager → ℕ → ℕ → ℕ → List ℕ
uncached m layer i zero = []
uncached m layer i (suc count) =
    let rest = uncached m layer (i + 1) count in
    let addr = predicted_addr layer i in if is_cached addr m then rest else addr ∷ rest

module _ (f : Floats) where
  -- The request for a prediction at index `i`.
  abbrev request : (ℕ → ℕ) → ℕ → ℕ → ℕ → f.Float → PrefetchRequest f
  request now layer i token confidence = record {
    virtual_addr = predicted_addr layer i;
    layer_id = layer;
    predicted_token_id = token;
    confidence = confidence;
    timestamp = now i;
  }

  loop-addresses :
      (now : ℕ → ℕ) (m : MemoryManager) (layer i : ℕ) (predictions : List (ℕ × f.Float))
      (p : Prefetcher f)
      → map
          (λ (r : PrefetchRequest f). r.virtual_addr)
          (prefetch_loop f now m layer i predictions p).1
        ≡ uncached m layer i (length predictions)
  unfolding prefetch_loop uncached
  loop-addresses now m layer i [] p = refl
  loop-addresses now m layer i ((token, confidence) ∷ predictions) p =
      elim (Bool-cases (is_cached (predicted_addr layer i) m)) [
        | inl hit ↦ rw (hit, prefetch_loop) (loop-addresses now m layer (i + 1) predictions p)
        | inr miss ↦
            rw (miss, prefetch_loop)
              (ap (◌∷◌ (predicted_addr layer i)) (
                loop-addresses now m layer (i + 1) predictions
                  (issue_dma_prefetch f (request now layer i token confidence) p)))
      ]

  loop-queue :
      (now : ℕ → ℕ) (m : MemoryManager) (layer i : ℕ) (predictions : List (ℕ × f.Float))
      (p : Prefetcher f)
      → (prefetch_loop f now m layer i predictions p).0.outstanding_prefetches
        ≡ push_all 16 p.outstanding_prefetches (prefetch_loop f now m layer i predictions p).1
  unfolding prefetch_loop push_all issue_dma_prefetch
  loop-queue now m layer i [] p = refl
  loop-queue now m layer i ((token, confidence) ∷ predictions) p =
      elim (Bool-cases (is_cached (predicted_addr layer i) m)) [
        | inl hit ↦ rw (hit, prefetch_loop) (loop-queue now m layer (i + 1) predictions p)
        | inr miss ↦
            rw (miss, prefetch_loop)
              (loop-queue now m layer (i + 1) predictions
                (issue_dma_prefetch f (request now layer i token confidence) p))
      ]

  issue-stats :
      (r : PrefetchRequest f) (p : Prefetcher f) → (issue_dma_prefetch f r p).stats ≡ p.stats
  unfolding issue_dma_prefetch
  issue-stats r p = refl

  loop-stats :
      (now : ℕ → ℕ) (m : MemoryManager) (layer i : ℕ) (predictions : List (ℕ × f.Float))
      (p : Prefetcher f)
      → (prefetch_loop f now m layer i predictions p).0.stats ≡ p.stats
  unfolding prefetch_loop
  loop-stats now m layer i [] p = refl
  loop-stats now m layer i ((token, confidence) ∷ predictions) p =
      elim (Bool-cases (is_cached (predicted_addr layer i) m)) [
        | inl hit ↦ rw (hit, prefetch_loop) (loop-stats now m layer (i + 1) predictions p)
        | inr miss ↦
            rw (miss, prefetch_loop)
              (loop-stats now m layer (i + 1) predictions
                  (issue_dma_prefetch f (request now layer i token confidence) p)
                ∙ issue-stats (request now layer i token confidence) p)
      ]

  module _ (predict_top_k : List ℕ → ℕ → List (ℕ × f.Float)) (now : ℕ → ℕ) (latency_us : ℕ)
      (m : MemoryManager) (history : List ℕ) (layer depth : ℕ) (p : Prefetcher f) where
    -- What one call returns, and the predictions that it works on.
    abbrev run : Prefetcher f × List (PrefetchRequest f)
    run = prefetch f predict_top_k now latency_us m history layer depth p

    abbrev pub predictions : List (ℕ × f.Float)
    predictions = predict_top_k history (if ltb 0 depth then depth else p.adaptive_depth)

    -- A call asks for the addresses of its predictions, in their order, that are in neither cache
    -- of the memory manager, and for no others.
    pub prefetch-addresses :
        map (λ (r : PrefetchRequest f). r.virtual_addr) run.1
        ≡ uncached m layer 0 (length predictions)
    unfolding prefetch
    prefetch-addresses = loop-addresses now m layer 0 predictions p

    -- From a queue of at most 16 requests, a call leaves the last 16 of the old and the new ones, in
    -- their order.
    pub prefetch-queue :
        length p.outstanding_prefetches ≤ 16
        → run.0.outstanding_prefetches ≡ last 16 (p.outstanding_prefetches ++ run.1)
    unfolding prefetch
    prefetch-queue short =
        let requests = (prefetch_loop f now m layer 0 predictions p).1 in
        loop-queue now m layer 0 predictions p
        ∙ (ap (λ (q : List (PrefetchRequest f)). push_all 16 q requests)
              (sym (last_all 16 p.outstanding_prefetches short))
            ∙ push_all-last 16 p.outstanding_prefetches requests)

    -- A call counts the requests that it makes, up to the wrap-around of the counter.
    pub prefetch-total :
        run.0.stats.total_prefetches ≡ add64 p.stats.total_prefetches (length run.1)
    unfolding prefetch count_prefetches
    prefetch-total = rw (loop-stats now m layer 0 predictions p) refl
