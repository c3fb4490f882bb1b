-- ===== src/Predictor/Best.antt =====
-- Which tokens the predictor (src/prefetcher/lstm_predictor.cpp) returns.
use mathlib.Core.Logic.{∥∥₁_elim}
use mathlib.Core.List.{Perm, Permᴰ}
use native.Mathlib.Nat.{ℕ_set}
use cxl_spec_kv.Common.{
  ℕ, ◌≡◌, refl, List, [], ◌∷◌, ◌++◌, some, length, take, drop, map, zero, suc, min, ap, sym, ◌∙◌,
  subst, take-append-drop, length-take, length-map,
}
use cxl_spec_kv.Engine.Floats.{Floats}
use cxl_spec_kv.Predictor.Types.{
  Network, LstmPredictor, Sort, NoneAbove, Descending, NoneBefore, Ordered, IsStrictWeak,
}
use cxl_spec_kv.Common.Tables.{Every}
use cxl_spec_kv.Predictor.Network.{token_probs, predict_top_k, more_probable}
use cxl_spec_kv.Predictor.Reads.{IsShaped, token_probs-inside, count_up, length-count_up}

-- A permutation keeps the length.
reordered {ℓ} :
    {A : Type ℓ} {before after : List A} → Permᴰ before after → length after ≡ length before
reordered (Permᴰ.swap x y) = refl
reordered (Permᴰ.trans first second) = reordered second ∙ reordered first
reordered (Permᴰ.cons x rest) = ap suc (reordered rest)
reordered Permᴰ.nil = refl

length-perm {ℓ} :
    {A : Type ℓ} {before after : List A} → Perm before after → length after ≡ length before
length-perm p = ∥∥₁_elim p (ℕ_set _ _) reordered

module _ (f : Floats) where
  -- No entry of the second list is more confident than one of the first.
  abbrev pub NoneBetter : List (ℕ × f.Float) → List (ℕ × f.Float) → Type 0
  NoneBetter [] rest = Unit
  NoneBetter ((t, c) ∷ chosen) rest = NoneAbove f c rest × NoneBetter chosen rest

  NoneAbove-drop :
      (c : f.Float) (k : ℕ) (xs : List (ℕ × f.Float)) → NoneAbove f c xs → NoneAbove f c (drop k xs)
  NoneAbove-drop c zero xs h = h
  NoneAbove-drop c (suc k) [] h = h
  NoneAbove-drop c (suc k) ((t, d) ∷ xs) h = NoneAbove-drop c k xs h.1

  NoneAbove-take :
      (c : f.Float) (k : ℕ) (xs : List (ℕ × f.Float)) → NoneAbove f c xs → NoneAbove f c (take k xs)
  NoneAbove-take c zero xs h = tt
  NoneAbove-take c (suc k) [] h = tt
  NoneAbove-take c (suc k) ((t, d) ∷ xs) h = (h.0, NoneAbove-take c k xs h.1)

  Descending-take : (k : ℕ) (xs : List (ℕ × f.Float)) → Descending f xs → Descending f (take k xs)
  Descending-take zero xs h = tt
  Descending-take (suc k) [] h = tt
  Descending-take (suc k) ((t, c) ∷ xs) h = (NoneAbove-take c k xs h.0, Descending-take k xs h.1)

  Descending-NoneBetter :
      (k : ℕ) (xs : List (ℕ × f.Float)) → Descending f xs → NoneBetter (take k xs) (drop k xs)
  Descending-NoneBetter zero xs h = tt
  Descending-NoneBetter (suc k) [] h = tt
  Descending-NoneBetter (suc k) ((t, c) ∷ xs) h =
      (NoneAbove-drop c k xs h.0, Descending-NoneBetter k xs h.1)

  NoneBefore-NoneAbove :
      (net : Network f) (t : ℕ) (c : f.Float) (xs : List (ℕ × f.Float))
      → NoneBefore f (more_probable f net) (t, c) xs
      → NoneAbove f c xs
  unfolding more_probable
  NoneBefore-NoneAbove net t c [] h = tt
  NoneBefore-NoneAbove net t c ((u, d) ∷ xs) h = (h.0, NoneBefore-NoneAbove net t c xs h.1)

  Ordered-Descending :
      (net : Network f) (xs : List (ℕ × f.Float))
      → Ordered f (more_probable f net) xs
      → Descending f xs
  Ordered-Descending net [] h = tt
  Ordered-Descending net ((t, c) ∷ xs) h =
      (NoneBefore-NoneAbove net t c xs h.0, Ordered-Descending net xs h.1)

  -- For a network of the shape that the constructor gives it, any history, and a `float_gt` that is a
  -- strict weak order of the probabilities that are computed, as it is of numbers and not of NaN:
  -- the predictor reads nothing outside its vectors and returns the best `k` tokens, or all if there
  -- are fewer, best first. With some rest they are a permutation of all tokens from 0 on with their
  -- probabilities, and none of the rest is more probable than one of them.
  pub predict_top_k-best :
      (net : Network f) (by : Sort f) (p : LstmPredictor f) (history : List ℕ) (k : ℕ)
      (IsNumber : f.Float → Type 0)
      → IsShaped f p
      → IsStrictWeak f.float_gt IsNumber
      → ((all : List (ℕ × f.Float))
          → token_probs f net p history ≡ some all
          → Every (λ (e : ℕ × f.Float). IsNumber e.1) all)
      → (all best rest : List (ℕ × f.Float)) × (token_probs f net p history ≡ some all)
        × (map (λ e. e.0) all ≡ count_up 0 p.vocab_size)
        × (predict_top_k f net by p history k ≡ some best)
        × Perm all (best ++ rest)
        × (length best ≡ min k p.vocab_size)
        × Descending f best
        × NoneBetter best rest
  unfolding predict_top_k more_probable
  predict_top_k-best net by p history k IsNumber s weak numbers =
      let (all, e, tokens) = token_probs-inside f net p history s in
      let sorted = by.sort (more_probable f net) all in
      let (perm, ordered) =
        by.sort_lem (more_probable f net) (λ (a : ℕ × f.Float). IsNumber a.1) all
          (λ a. weak.0 a.1, λ a b c. weak.1 a.1 b.1 c.1, λ a b c. weak.2 a.1 b.1 c.1)
          (numbers all e) in
      let down = Ordered-Descending net sorted ordered in
      let size : length all ≡ p.vocab_size =
        sym (length-map all (λ e. e.0))
        ∙ ap (λ (ts : List ℕ). length ts) tokens
        ∙ length-count_up 0 p.vocab_size in
      (
        all,
        take k sorted,
        drop k sorted,
        e,
        tokens,
        rw e refl,
        subst (λ (l : List (ℕ × f.Float)). Perm all l) (sym (take-append-drop k sorted)) perm,
        length-take k sorted ∙ ap (λ (n : ℕ). min k n) (length-perm perm ∙ size),
        Descending-take k sorted down,
        Descending-NoneBetter k sorted down,
      )
