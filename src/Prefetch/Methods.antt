-- ===== src/Prefetch/Methods.antt =====
-- The methods of `SpeculativePrefetcher` (src/prefetcher/speculative_prefetcher.cpp). The results of
-- `LSTMPredictor::predict_top_k`, the readings of the clock and the latency are arguments.
use Prim.Native.Nat.{bit_or}
use cxl_spec_kv.Common.{
  ℕ, ◌+◌, ◌*◌, ◌%◌, Bool, true, false, ◌&&◌, ◌||◌, not, List, [], ◌∷◌, if◌then◌else◌, ◌==◌, ltb,
  leb, length,
}
use cxl_spec_kv.Common.Words.{add64, sub64, inc64, shl64, u32_mod}
use cxl_spec_kv.Engine.Floats.{Floats}
use cxl_spec_kv.Memory.Types.{MemoryManager, l1_gpu_local, l2_prefetch}
use cxl_spec_kv.Memory.Pages.{is_in_cache}
use cxl_spec_kv.Prefetch.Types.{PrefetchRequest, PrefetchStatistics, Prefetcher, no_statistics}
use cxl_spec_kv.Prefetch.Window.{push_bounded, last}

-- The address format of a KV entry: `[req_id:32][layer_id:16][position:16]`.
unfoldable pub compute_kv_address : ℕ → ℕ → ℕ → ℕ
compute_kv_address req_id layer_id position =
    bit_or (bit_or (shl64 req_id 32) (shl64 layer_id 16)) position

-- `std::find(...) != end()`.
unfoldable pub contains : ℕ → List ℕ → Bool
contains token [] = false
contains token (t ∷ tokens) = (t == token) || contains token tokens

unfoldable pub count_correct : List Bool → ℕ
count_correct [] = 0
count_correct (true ∷ rest) = count_correct rest + 1
count_correct (false ∷ rest) = count_correct rest

-- The adjustment, from how many of the last ten predictions were right. A sum of ten 0.0 and 1.0
-- is exact, and its tenth is over 0.95 or under 0.85 when ten times it is over 95 or under 85.
unfoldable pub adjust_depth : ℕ → ℕ → ℕ
adjust_depth correct depth =
    if ltb 95 (correct * 10) && ltb depth 8
    then inc64 depth
    else if ltb (correct * 10) 85 && ltb 2 depth
    then sub64 depth 1
    else depth

-- The address of the prediction at index `i`, as `i + 1` is cut to 32 bits.
unfoldable pub predicted_addr : ℕ → ℕ → ℕ
unfolding compute_kv_address
predicted_addr layer_id i = compute_kv_address 0 layer_id ((i + 1) % u32_mod)

unfoldable pub is_cached : ℕ → MemoryManager → Bool
is_cached virtual_addr memory_manager =
    is_in_cache virtual_addr l1_gpu_local memory_manager
    || is_in_cache virtual_addr l2_prefetch memory_manager

module _ (f : Floats) where
  open f use {Float, Double, double_of, double_add, double_mul, double_div}

  unfoldable pub update_prediction_accuracy : Bool → Prefetcher f → Prefetcher f
  unfolding push_bounded last adjust_depth count_correct
  update_prediction_accuracy was_correct p =
      let history = push_bounded p.accuracy_window_size p.accuracy_history was_correct in
      record p {
        accuracy_history = history;
        adaptive_depth =
            if leb 10 (length history)
            then adjust_depth (count_correct (last 10 history)) p.adaptive_depth
            else p.adaptive_depth;
      }

  unfoldable pub get_adaptive_depth : Prefetcher f → ℕ
  get_adaptive_depth p = p.adaptive_depth

  unfoldable pub set_prefetch_depth : ℕ → Prefetcher f → Prefetcher f
  set_prefetch_depth depth p = record p { prefetch_depth = depth; adaptive_depth = depth }

  unfoldable pub get_prefetch_depth : Prefetcher f → ℕ
  get_prefetch_depth p = p.prefetch_depth

  unfoldable pub handle_misprediction : ℕ → List ℕ → Prefetcher f → Prefetcher f
  unfolding contains
  handle_misprediction actual_token predicted_tokens p =
      if not (contains actual_token predicted_tokens)
      then record p { stats = record p.stats { mispredictions = inc64 p.stats.mispredictions } }
      else p

  unfoldable pub issue_dma_prefetch : PrefetchRequest f → Prefetcher f → Prefetcher f
  unfolding push_bounded
  issue_dma_prefetch req p = record p {
    outstanding_prefetches = push_bounded 16 p.outstanding_prefetches req;
  }

  unfoldable pub in_queue : ℕ → List (PrefetchRequest f) → Bool
  in_queue virtual_addr [] = false
  in_queue virtual_addr (req ∷ queue) =
      if req.virtual_addr == virtual_addr then true else in_queue virtual_addr queue

  unfoldable pub is_already_prefetched : ℕ → Prefetcher f → Bool
  unfolding in_queue
  is_already_prefetched virtual_addr p = in_queue virtual_addr p.outstanding_prefetches

  -- The loop over the predictions from index `i` on: the prefetcher that is left, and the requests.
  unfoldable pub prefetch_loop :
      (ℕ → ℕ)
      → MemoryManager
      → ℕ
      → ℕ
      → List (ℕ × Float)
      → Prefetcher f
      → Prefetcher f × List (PrefetchRequest f)
  prefetch_loop now memory_manager layer_id i [] p = (p, [])
  prefetch_loop now memory_manager layer_id i ((predicted_token, confidence) ∷ predictions) p =
      let addr = predicted_addr layer_id i in
      elim (is_cached addr memory_manager) [
        | true ↦ prefetch_loop now memory_manager layer_id (i + 1) predictions p
        | false ↦
            let req : PrefetchRequest f = record {
              virtual_addr = addr;
              layer_id = layer_id;
              predicted_token_id = predicted_token;
              confidence = confidence;
              timestamp = now i;
            } in
            let (after, requests) =
              prefetch_loop now memory_manager layer_id (i + 1) predictions
                (issue_dma_prefetch req p) in
            (after, req ∷ requests)
      ]

  unfoldable pub count_prefetches : ℕ → ℕ → PrefetchStatistics f → PrefetchStatistics f
  count_prefetches issued latency_us s =
      let total = add64 s.total_prefetches issued in
      record s {
        total_prefetches = total;
        avg_prediction_latency_us =
            double_div
              (double_add (double_mul s.avg_prediction_latency_us (double_of (sub64 total issued)))
                (double_of latency_us))
              (double_of total);
      }

  unfoldable pub prefetch :
      (List ℕ → ℕ → List (ℕ × Float))
      → (ℕ → ℕ)
      → ℕ
      → MemoryManager
      → List ℕ
      → ℕ
      → ℕ
      → Prefetcher f
      → Prefetcher f × List (PrefetchRequest f)
  unfolding prefetch_loop count_prefetches
  prefetch predict_top_k now latency_us memory_manager token_history layer_id depth p =
      let actual_depth = if ltb 0 depth then depth else p.adaptive_depth in
      let predictions = predict_top_k token_history actual_depth in
      let (after, requests) = prefetch_loop now memory_manager layer_id 0 predictions p in
      (record after { stats = count_prefetches (length requests) latency_us after.stats }, requests)

  unfoldable pub get_statistics : Prefetcher f → PrefetchStatistics f
  get_statistics p =
      let s = p.stats in
      if ltb 0 s.total_prefetches
      then record s {
        hit_rate = double_div (double_of s.successful_prefetches) (double_of s.total_prefetches);
        precision =
            double_div (double_of s.successful_prefetches)
              (double_of (add64 (add64 s.successful_prefetches s.mispredictions) 1));
      }
      else s

  unfoldable pub reset_statistics : Prefetcher f → Prefetcher f
  reset_statistics p = record p { stats = no_statistics f }
