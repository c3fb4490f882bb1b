-- ===== src/Prefetch/Streaks.antt =====
-- Where the adaptive depth of `SpeculativePrefetcher` ends up when its predictions are right for a
-- while (`update_prediction_accuracy` of src/prefetcher/speculative_prefetcher.cpp).
use mathlib.Core.List.{append_assoc}
use cxl_spec_kv.Common.{
  ℕ, zero, suc, ◌+◌, ◌-◌, ◌≤◌, ◌≡◌, refl, Bool, true, List, [], ◌∷◌, ◌++◌, length, leb, arith,
  replicate, min, ◌∙◌, sym, ap, length-append,
}
use cxl_spec_kv.Engine.Floats.{Floats}
use cxl_spec_kv.Prefetch.Types.{Prefetcher, create}
use cxl_spec_kv.Prefetch.Window.{
  last, push_bounded, push_bounded-last, last-append, append_one, last-append_self,
}
use cxl_spec_kv.Prefetch.Methods.{adjust_depth, update_prediction_accuracy}
use cxl_spec_kv.Prefetch.Depth.{
  IsDepth, update_all, update_all-IsDepth, accuracy_history-update_all,
}

-- Nine right predictions, and ten.
abbrev nine : List Bool
nine = replicate 9 true

abbrev ten : List Bool
ten = replicate 10 true

-- A window of 100 that ends in nine right predictions has ten after one more.
last-ten : (g : List Bool) → last 10 (last 100 (g ++ ten)) ≡ ten
last-ten g = rw (last-append 100 g ten (omega arith)) (last-append_self (last 90 g) ten)

length-ten : (g : List Bool) → leb 10 (length (last 100 (g ++ ten))) ≡ true
length-ten g =
    let size = length-append (last 90 g) ten in
    rw (last-append 100 g ten (omega arith)) (grind arith)

push-nine : (g : List Bool) → push_bounded 100 (last 100 (g ++ nine)) true ≡ last 100 (g ++ ten)
push-nine g =
    push_bounded-last 100 (g ++ nine) true ∙ ap (last 100) (append_assoc g nine (true ∷ []))

replicate-split : (a n : ℕ) → a ≤ n → replicate n true ≡ replicate a true ++ replicate (n - a) true
replicate-split zero n h = let all : n - 0 ≡ n = omega arith in rw all refl
replicate-split (suc a) zero h = absurd (omega arith)
replicate-split (suc a) (suc n) h =
    let rest : suc n - suc a ≡ n - a = omega arith in
    rw rest (ap (◌∷◌ true) (replicate-split a n (omega arith)))

module _ (f : Floats) where
  record IsStreak (p : Prefetcher f) (g : List Bool) : Type 0 where
    pub window : p.accuracy_window_size ≡ 100
    pub ends : p.accuracy_history ≡ last 100 (g ++ nine)

  -- One more right prediction deepens by one, up to 8.
  streak-depth :
      (p : Prefetcher f) (g : List Bool)
      → IsStreak p g
      → (update_prediction_accuracy f true p).adaptive_depth ≡ adjust_depth 10 p.adaptive_depth
  unfolding update_prediction_accuracy adjust_depth
  streak-depth p g s = rw (s.window, s.ends, push-nine g, length-ten g, last-ten g) refl

  update-IsStreak :
      (p : Prefetcher f) (g : List Bool)
      → IsStreak p g
      → IsStreak (update_prediction_accuracy f true p) (g ++ true ∷ [])
  unfolding update_prediction_accuracy
  update-IsStreak p g s = record {
    window = s.window;
    ends = rw (s.window, s.ends) (push-nine g ∙ ap (last 100) (sym (append_one g nine true)));
  }

  adjust_depth-right : (depth n : ℕ) → min 8 (depth + suc n) ≤ min 8 (adjust_depth 10 depth + n)
  unfolding adjust_depth
  adjust_depth-right depth n = grind arith

  streak-rises :
      (n : ℕ) (p : Prefetcher f) (g : List Bool)
      → IsStreak p g
      → min 8 (p.adaptive_depth + n) ≤ (update_all f (replicate n true) p).adaptive_depth
  unfolding update_all
  streak-rises zero p g s = omega arith
  streak-rises (suc n) p g s =
      let rest =
        streak-rises n (update_prediction_accuracy f true p) (g ++ true ∷ [])
          (update-IsStreak p g s) in
      let step = adjust_depth-right p.adaptive_depth n in
      let here = streak-depth p g s in omega arith

  create-window :
      (depth history_length : ℕ) → (create f depth history_length).accuracy_window_size ≡ 100
  unfolding create
  create-window depth history_length = refl

  create-IsDepth :
      (depth history_length : ℕ)
      → IsDepth depth
      → IsDepth (create f depth history_length).adaptive_depth
  unfolding create
  create-IsDepth depth history_length h = h

  update_all-append :
      (xs ys : List Bool) (p : Prefetcher f)
      → update_all f (xs ++ ys) p ≡ update_all f ys (update_all f xs p)
  unfolding update_all
  update_all-append [] ys p = refl
  update_all-append (x ∷ xs) ys p = update_all-append xs ys (update_prediction_accuracy f x p)

  update_all-window :
      (xs : List Bool) (p : Prefetcher f)
      → (update_all f xs p).accuracy_window_size ≡ p.accuracy_window_size
  unfolding update_all update_prediction_accuracy
  update_all-window [] p = refl
  update_all-window (x ∷ xs) p = update_all-window xs (update_prediction_accuracy f x p)

  -- Whatever a new prefetcher of depth 2 to 8 has predicted, fifteen or more right predictions in a
  -- row take its adaptive depth to 8.
  pub update_all-right :
      (results : List Bool) (depth history_length n : ℕ)
      → IsDepth depth
      → 15 ≤ n
      → (update_all f (results ++ replicate n true) (create f depth history_length)).adaptive_depth
        ≡ 8
  update_all-right results depth history_length n h long =
      let new = create f depth history_length in
      let before = results ++ nine in
      let p = update_all f before new in
      let streak : IsStreak p results = record {
        window = update_all-window before new ∙ create-window depth history_length;
        ends = accuracy_history-update_all f before depth history_length;
      } in
      let up = streak-rises (n - 9) p results streak in
      let inside = update_all-IsDepth f before new (create-IsDepth depth history_length h) in
      let bounds = update_all-IsDepth f (replicate (n - 9) true) p inside in
      let split : results ++ replicate n true ≡ before ++ replicate (n - 9) true =
        rw (replicate-split 9 n (omega arith))
          (sym (append_assoc results nine (replicate (n - 9) true))) in
      rw (split, update_all-append before (replicate (n - 9) true) new) (omega arith)
