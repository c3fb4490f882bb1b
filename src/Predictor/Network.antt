-- ===== src/Predictor/Network.antt =====
-- The methods of `LSTMPredictor` (src/prefetcher/lstm_predictor.cpp). `none` is a read outside a vector.
use cxl_spec_kv.Common.{
  ℕ, ◌+◌, ◌-◌, ◌%◌, Bool, true, List, [], ◌∷◌, ◌++◌, Option, none, some, if◌then◌else◌, ltb, leb,
  length, take, drop, map, replicate, get_elem?, zero, suc,
}
use cxl_spec_kv.Common.Words.{mul64, add64, u32_mod}
use cxl_spec_kv.Engine.Floats.{Floats}
use cxl_spec_kv.Prefetch.Window.{last}
use cxl_spec_kv.Predictor.Types.{◌>>=◌, Network, LstmPredictor, LstmState, Sort}

-- The history, cut or padded with zeros in front.
unfoldable pub fit_history : ℕ → List ℕ → List ℕ
unfolding last
fit_history history_length history =
    if ltb history_length (length history)
    then last history_length history
    else if ltb (length history) history_length
    then replicate (history_length - length history) 0 ++ history
    else history

-- `std::vector(begin() + offset, begin() + offset + n)`.
unfoldable pub slice {ℓ} : {A : Type ℓ} → ℕ → ℕ → List A → Option (List A)
slice offset n xs = if leb (offset + n) (length xs) then some (take n (drop offset xs)) else none

-- So many elements from an index on.
unfoldable pub read_all {ℓ} : {A : Type ℓ} → List A → ℕ → ℕ → Option (List A)
read_all xs i zero = some []
read_all xs i (suc n) = do x ← get_elem? xs i; rest ← read_all xs (i + 1) n; some (x ∷ rest)

module _ (f : Floats) (net : Network f) where
  open f use {Float, float_zero, float_mul, float_div, float_gt}
  open net use {float_add, float_sub, float_exp, float_tanh, float_half, float_tenth}

  unfoldable pub embed_token : LstmPredictor f → ℕ → Option (List Float)
  unfolding read_all
  embed_token p token_id =
      if ltb token_id p.vocab_size
      then read_all p.embedding_weights (mul64 token_id p.embedding_dim) p.embedding_dim
      else some (replicate p.embedding_dim float_zero)

  -- The candidate: the sum of the inputs, each times 0.1.
  unfoldable pub candidate : Float → List Float → Float
  candidate g [] = g
  candidate g (x ∷ xs) = candidate (float_add g (float_mul x float_tenth)) xs

  -- The weights are not read yet. The state has as many cells as hidden units.
  unfoldable pub lstm_forward : List Float → LstmState f → List Float → LstmState f
  unfolding candidate
  lstm_forward input state weights =
      let g = candidate float_zero (take (length state.hidden) input) in
      let cell =
        map (λ c. float_add (float_mul float_half c) (float_mul float_half (float_tanh g)))
          state.cell in
      record { cell = cell; hidden = map (λ c. float_mul float_half (float_tanh c)) cell }

  -- The weights of so many layers.
  unfoldable pub layer_size : LstmPredictor f → ℕ → ℕ
  layer_size p n = mul64 (mul64 (mul64 n p.hidden_dim) p.hidden_dim) 4

  -- The layers that are left, from `layer` on.
  unfoldable pub forward_layers :
      LstmPredictor f → List Float → ℕ → ℕ → LstmState f → Option (LstmState f)
  unfolding lstm_forward layer_size
  forward_layers p embedded layer zero state = some state
  forward_layers p embedded layer (suc left) state = do
    weights ← slice (layer_size p layer) (layer_size p 1) p.lstm_weights
    forward_layers p embedded (layer + 1) left (lstm_forward embedded state weights)

  -- The tokens of the history that are left, from index `t` on.
  unfoldable pub forward_tokens :
      LstmPredictor f → List ℕ → ℕ → ℕ → LstmState f → Option (LstmState f)
  unfolding embed_token forward_layers
  forward_tokens p history t zero state = some state
  forward_tokens p history t (suc left) state = do
    token ← get_elem? history t
    embedded ← embed_token p token
    after ← forward_layers p embedded 0 p.num_layers state
    forward_tokens p history (t + 1) left after

  -- One logit: the sum over the hidden units, from index `j` on, each times its weight, where there is
  -- one.
  unfoldable pub add_weighted : LstmPredictor f → ℕ → ℕ → Float → List Float → Float
  add_weighted p i j logit [] = logit
  add_weighted p i j logit (h ∷ hidden) =
      let more : Float = elim (get_elem? p.output_weights (add64 (mul64 i p.hidden_dim) j)) [
        | none ↦ logit
        | some w ↦ float_add logit (float_mul h w)
      ] in
      add_weighted p i (j + 1) more hidden

  -- So many logits, from index `i` on.
  unfoldable pub logits_from : LstmPredictor f → List Float → ℕ → ℕ → List Float
  unfolding add_weighted
  logits_from p hidden i zero = []
  logits_from p hidden i (suc left) =
      add_weighted p i 0 float_zero (take p.hidden_dim hidden) ∷ logits_from p hidden (i + 1) left

  -- `std::max_element`, which of an empty range is its end.
  unfoldable pub max_from : Float → List Float → Float
  max_from best [] = best
  max_from best (x ∷ xs) = max_from (if float_gt x best then x else best) xs

  unfoldable pub max_element : List Float → Option Float
  unfolding max_from
  max_element [] = none
  max_element (x ∷ xs) = some (max_from x xs)

  unfoldable pub sum_from : Float → List Float → Float
  sum_from sum [] = sum
  sum_from sum (x ∷ xs) = sum_from (float_add sum x) xs

  -- The exponentials of what the logits are below the largest, over their sum.
  unfoldable pub softmax : Float → List Float → List Float
  unfolding sum_from
  softmax max_logit logits =
      let exps = map (λ x. float_exp (float_sub x max_logit)) logits in
      let sum_exp = sum_from float_zero exps in map (λ x. float_div x sum_exp) exps

  unfoldable pub compute_output_probs : LstmPredictor f → List Float → Option (List Float)
  unfolding logits_from max_element softmax
  compute_output_probs p hidden = do
    let logits = logits_from p hidden 0 p.vocab_size
    max_logit ← max_element logits
    some (softmax max_logit logits)

  -- Each token with its probability, from index `i` on.
  unfoldable pub number_from : ℕ → List Float → List (ℕ × Float)
  number_from i [] = []
  number_from i (x ∷ probs) = (i % u32_mod, x) ∷ number_from (i + 1) probs

  unfoldable pub token_probs : LstmPredictor f → List ℕ → Option (List (ℕ × Float))
  unfolding forward_tokens compute_output_probs number_from
  token_probs p token_history = do
    let start : LstmState f = record {
      hidden = replicate p.hidden_dim float_zero;
      cell = replicate p.hidden_dim float_zero;
    }
    state ← forward_tokens p (fit_history p.history_length token_history) 0 p.history_length start
    probs ← compute_output_probs p state.hidden
    some (number_from 0 probs)

  -- The comparison that `std::sort` is given: descending.
  unfoldable pub more_probable : ℕ × Float → ℕ × Float → Bool
  more_probable a b = float_gt a.1 b.1

  unfoldable pub predict_top_k : Sort f → LstmPredictor f → List ℕ → ℕ → Option (List (ℕ × Float))
  unfolding token_probs more_probable
  predict_top_k by p token_history k = do
    entries ← token_probs p token_history
    some (take k (by.sort more_probable entries))

  -- Two bytes for each parameter.
  unfoldable pub get_model_size : LstmPredictor f → ℕ
  get_model_size p =
      mul64
        (add64 (add64 (mul64 p.vocab_size p.embedding_dim) (layer_size p p.num_layers))
          (mul64 p.hidden_dim p.vocab_size))
        2

  -- Neither reads or writes the file yet.
  unfoldable pub load_model : LstmPredictor f → LstmPredictor f × Bool
  load_model p = (p, true)

  unfoldable pub save_model : LstmPredictor f → Bool
  save_model p = true
