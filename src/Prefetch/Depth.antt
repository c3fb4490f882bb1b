-- ===== src/Prefetch/Depth.antt =====
-- How the adaptive depth of `SpeculativePrefetcher` follows the accuracy of its predictions
-- (`update_prediction_accuracy` of src/prefetcher/speculative_prefetcher.cpp).
use cxl_spec_kv.Common.{ℕ, ◌≤◌, ◌≡◌, refl, Bool, List, [], ◌∷◌, length, leb, arith, ◌∙◌, if_cases}
use cxl_spec_kv.Engine.Floats.{Floats}
use cxl_spec_kv.Prefetch.Types.{Prefetcher, create}
use cxl_spec_kv.Prefetch.Window.{last, push_bounded, push_all, push_all-last}
use cxl_spec_kv.Prefetch.Methods.{adjust_depth, update_prediction_accuracy, count_correct}

abbrev pub IsDepth : ℕ → Type 0
IsDepth depth = (2 ≤ depth) × (depth ≤ 8)

adjust_depth-IsDepth : (correct depth : ℕ) → IsDepth depth → IsDepth (adjust_depth correct depth)
unfolding adjust_depth
adjust_depth-IsDepth correct depth h = (grind arith, grind arith)

module _ (f : Floats) where
  -- The updates for a sequence of predictions, each right or wrong.
  unfoldable pub update_all : List Bool → Prefetcher f → Prefetcher f
  unfolding update_prediction_accuracy
  update_all [] p = p
  update_all (result ∷ results) p = update_all results (update_prediction_accuracy f result p)

  update-IsDepth :
      (result : Bool) (p : Prefetcher f)
      → IsDepth p.adaptive_depth
      → IsDepth (update_prediction_accuracy f result p).adaptive_depth
  unfolding update_prediction_accuracy
  update-IsDepth result p h =
      if_cases IsDepth
        (leb 10 (length (push_bounded p.accuracy_window_size p.accuracy_history result)))
        (adjust_depth-IsDepth
          (count_correct (last 10 (push_bounded p.accuracy_window_size p.accuracy_history result)))
          p.adaptive_depth h)
        h

  -- From a depth of 2 to 8, no sequence of predictions takes the adaptive depth out of 2 to 8.
  pub update_all-IsDepth :
      (results : List Bool) (p : Prefetcher f)
      → IsDepth p.adaptive_depth
      → IsDepth (update_all results p).adaptive_depth
  unfolding update_all
  update_all-IsDepth [] p h = h
  update_all-IsDepth (result ∷ results) p h =
      update_all-IsDepth results (update_prediction_accuracy f result p) (update-IsDepth result p h)

  update_all-history :
      (results : List Bool) (p : Prefetcher f)
      → (update_all results p).accuracy_history
        ≡ push_all p.accuracy_window_size p.accuracy_history results
  unfolding update_all push_all update_prediction_accuracy
  update_all-history [] p = refl
  update_all-history (result ∷ results) p =
      update_all-history results (update_prediction_accuracy f result p)

  -- The history that a new prefetcher has kept after any sequence of predictions is that of the
  -- last 100.
  pub accuracy_history-update_all :
      (results : List Bool) (depth history_length : ℕ)
      → (update_all results (create f depth history_length)).accuracy_history ≡ last 100 results
  unfolding create last
  accuracy_history-update_all results depth history_length =
      update_all-history results (create f depth history_length) ∙ push_all-last 100 [] results
