-- ===== src/Predictor/Requests.antt =====
-- The prefetcher (src/prefetcher/speculative_prefetcher.cpp) with the predictor
-- (src/prefetcher/lstm_predictor.cpp) that it calls.
use cxl_spec_kv.Common.{
  ℕ, ◌+◌, ◌≤◌, ◌≡◌, inl, inr, List, [], ◌∷◌, none, some, if◌then◌else◌, ltb, length, min, arith, ap,
  Bool-cases,
}
use cxl_spec_kv.Engine.Floats.{Floats}
use cxl_spec_kv.Memory.Types.{MemoryManager}
use cxl_spec_kv.Prefetch.Types.{Prefetcher, PrefetchRequest}
use cxl_spec_kv.Prefetch.Methods.{
  prefetch, prefetch_loop, is_cached, predicted_addr, issue_dma_prefetch,
}
use cxl_spec_kv.Predictor.Types.{Network, LstmPredictor, Sort, IsStrictWeak}
use cxl_spec_kv.Common.Tables.{Every}
use cxl_spec_kv.Predictor.Network.{predict_top_k, token_probs}
use cxl_spec_kv.Predictor.Reads.{IsShaped}
use cxl_spec_kv.Predictor.Best.{predict_top_k-best}

module _ (f : Floats) where
  -- The predictor as the prefetcher calls it; without an answer there is nothing to prefetch.
  unfoldable pub predictions :
      (net : Network f) → Sort f → LstmPredictor f → List ℕ → ℕ → List (ℕ × f.Float)
  predictions net by p history k = elim (predict_top_k f net by p history k) [
    | none ↦ []
    | some best ↦ best
  ]

  predictions-found :
      (net : Network f) (by : Sort f) (p : LstmPredictor f) (history : List ℕ) (k : ℕ)
      (best : List (ℕ × f.Float))
      → predict_top_k f net by p history k ≡ some best
      → predictions net by p history k ≡ best
  unfolding predictions
  predictions-found net by p history k best e = ground (arith, e)

  length-prefetch_loop :
      (now : ℕ → ℕ) (m : MemoryManager) (layer i : ℕ) (tokens : List (ℕ × f.Float))
      (q : Prefetcher f)
      → length (prefetch_loop f now m layer i tokens q).1 ≤ length tokens
  unfolding prefetch_loop
  length-prefetch_loop now m layer i [] q = omega arith
  length-prefetch_loop now m layer i ((t, c) ∷ tokens) q =
      elim (Bool-cases (is_cached (predicted_addr layer i) m)) [
        | inl cached ↦
            let rest = length-prefetch_loop now m layer (i + 1) tokens q in
            ground (arith, cached, rest)
        | inr missing ↦
            let req : PrefetchRequest f = record {
              virtual_addr = predicted_addr layer i;
              layer_id = layer;
              predicted_token_id = t;
              confidence = c;
              timestamp = now i;
            } in
            let rest =
              length-prefetch_loop now m layer (i + 1) tokens (issue_dma_prefetch f req q) in
            ground (arith, missing, rest)
      ]

  -- With a predictor of the shape that its constructor gives it, whose probabilities are numbers, a
  -- call asks for at most as many pages as the depth, which is the adaptive one if 0 is given, and at
  -- most one for each token of the vocabulary.
  pub length-prefetch :
      (net : Network f) (by : Sort f) (p : LstmPredictor f) (now : ℕ → ℕ) (latency_us : ℕ)
      (m : MemoryManager) (history : List ℕ) (layer depth : ℕ) (q : Prefetcher f)
      (IsNumber : f.Float → Type 0)
      → IsShaped f p
      → IsStrictWeak f.float_gt IsNumber
      → ((all : List (ℕ × f.Float))
          → token_probs f net p history ≡ some all
          → Every (λ (e : ℕ × f.Float). IsNumber e.1) all)
      → length (prefetch f (predictions net by p) now latency_us m history layer depth q).1
        ≤ min (if ltb 0 depth then depth else q.adaptive_depth) p.vocab_size
  unfolding prefetch
  length-prefetch net by p now latency_us m history layer depth q IsNumber s weak numbers =
      let k = if ltb 0 depth then depth else q.adaptive_depth in
      let result = predict_top_k-best f net by p history k IsNumber s weak numbers in
      let found : predictions net by p history k ≡ result.1 =
        predictions-found net by p history k result.1 (result.5) in
      let asked = length-prefetch_loop now m layer 0 (predictions net by p history k) q in
      let few = result.7 in
      omega (arith, asked, few, ap (λ (l : List (ℕ × f.Float)). length l) found)
