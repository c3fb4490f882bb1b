-- ===== src/Predictor/Reads.antt =====
-- The predictor (src/prefetcher/lstm_predictor.cpp) reads no vector outside its bounds.
use native.Mathlib.Nat.{add-mul, mul-le-mul_right, mul_assoc, mul-le-mul_left, mod-eq_of_lt}
use cxl_spec_kv.Common.{
  ℕ, ◌+◌, ◌-◌, ◌*◌, ◌%◌, ◌<◌, ◌≤◌, ◌≡◌, refl, true, inl, inr, List, [], ◌∷◌, some, ltb, leb, length,
  take, drop, map, replicate, get_elem?, zero, suc, arith, Bool-cases, ap, sym, ◌∙◌, length-append,
  length-replicate, length-map, length-drop,
}
use cxl_spec_kv.Common.Words.{mul64, u32_mod, u64_mod}
use cxl_spec_kv.Engine.Floats.{Floats}
use cxl_spec_kv.Prefetch.Window.{last}
use cxl_spec_kv.Predictor.Types.{Network, LstmPredictor, LstmState, create, random_weights}
use cxl_spec_kv.Predictor.Network.{
  fit_history, slice, read_all, embed_token, layer_size, lstm_forward, forward_layers,
  forward_tokens, logits_from, max_element, softmax, compute_output_probs, number_from, token_probs,
}

pub length-fit_history : (n : ℕ) (history : List ℕ) → length (fit_history n history) ≡ n
unfolding fit_history last
length-fit_history n history = ground (
  arith,
  length-append (replicate (n - length history) 0) history,
  length-replicate {A = ℕ} (n - length history) 0,
  length-drop (length history - n) history,
)

-- So many numbers from one on.
unfoldable pub count_up : ℕ → ℕ → List ℕ
count_up i zero = []
count_up i (suc n) = i ∷ count_up (i + 1) n

pub length-count_up : (i n : ℕ) → length (count_up i n) ≡ n
unfolding count_up
length-count_up i zero = refl
length-count_up i (suc n) = ap suc (length-count_up (i + 1) n)

module _ {ℓ} {A : Type ℓ} where
  get_elem?-inside : (xs : List A) (i : ℕ) → i < length xs → (x : A) × (get_elem? xs i ≡ some x)
  get_elem?-inside [] i h = absurd (omega arith)
  get_elem?-inside (x ∷ xs) zero h = (x, refl)
  get_elem?-inside (x ∷ xs) (suc i) h = get_elem?-inside xs i (omega arith)

  read_all-inside :
      (xs : List A) (i n : ℕ) → i + n ≤ length xs → (ys : List A) × (read_all xs i n ≡ some ys)
  unfolding read_all
  read_all-inside xs i zero h = ([], refl)
  read_all-inside xs i (suc n) h =
      let (x, e) = get_elem?-inside xs i (omega arith) in
      let (ys, e') = read_all-inside xs (i + 1) n (omega arith) in (x ∷ ys, rw (e, e') refl)

at_least : (n d : ℕ) → n * d ≤ n * d * d
at_least n zero = omega arith
at_least n (suc d) =
    let grows : n * suc d * 1 ≤ n * suc d * suc d = mul-le-mul_left (n * suc d) (omega arith) in
    omega (arith, grows)

-- The product that the code forms step by step, when it fits.
mul64_square :
    (n d : ℕ) → n * (d * d * 4) < u64_mod → mul64 (mul64 (mul64 n d) d) 4 ≡ n * (d * d * 4)
mul64_square n d fits =
    let square : n * (d * d * 4) ≡ n * d * d * 4 =
      rw (mul_assoc n d d) (sym (mul_assoc n (d * d) 4)) in
    let below = at_least n d in
    let first : n * d % u64_mod ≡ n * d = mod-eq_of_lt (omega (arith, square, below, fits)) in
    let second : n * d * d % u64_mod ≡ n * d * d = mod-eq_of_lt (omega (arith, square, fits)) in
    rw (first, second) (omega (arith, square, fits))

module _ (f : Floats) where
  -- The vectors have the lengths that the constructor gives them, none of which overflows, and there
  -- are tokens, fewer than 2^32.
  pub record IsShaped (p : LstmPredictor f) : Type 0 where
    pub embeddings : length p.embedding_weights ≡ p.vocab_size * p.embedding_dim
    pub embeddings_fit : p.vocab_size * p.embedding_dim < u64_mod
    pub layers : length p.lstm_weights ≡ p.num_layers * (p.hidden_dim * p.hidden_dim * 4)
    pub layers_fit : p.num_layers * (p.hidden_dim * p.hidden_dim * 4) < u64_mod
    pub some_tokens : 0 < p.vocab_size
    pub few_tokens : p.vocab_size ≤ u32_mod

  module _ (net : Network f) where
    embed_token-inside :
        (p : LstmPredictor f) (token : ℕ)
        → IsShaped p
        → (xs : List f.Float) × (embed_token f net p token ≡ some xs)
    unfolding embed_token
    embed_token-inside p token s = elim (Bool-cases (ltb token p.vocab_size)) [
      | inl known ↦
          let spread = add-mul token 1 p.embedding_dim in
          let within : (token + 1) * p.embedding_dim ≤ p.vocab_size * p.embedding_dim =
            mul-le-mul_right p.embedding_dim (ground arith) in
          let (xs, e) =
            read_all-inside p.embedding_weights (mul64 token p.embedding_dim) p.embedding_dim
              (omega (arith, spread, within, s.embeddings, s.embeddings_fit)) in
          (xs, rw (known, e) refl)
      | inr unknown ↦ (replicate p.embedding_dim f.float_zero, rw unknown refl)
    ]

    layer_size-exact :
        (p : LstmPredictor f) (n : ℕ)
        → n ≤ p.num_layers
        → IsShaped p
        → layer_size f net p n ≡ n * (p.hidden_dim * p.hidden_dim * 4)
    unfolding layer_size
    layer_size-exact p n h s =
        let d = p.hidden_dim in
        let all : n * (d * d * 4) ≤ p.num_layers * (d * d * 4) = mul-le-mul_right (d * d * 4) h in
        mul64_square n d (omega (arith, all, s.layers_fit))

    length-random_weights : (rand : ℕ → ℕ) (i n : ℕ) → length (random_weights f net rand i n) ≡ n
    unfolding random_weights
    length-random_weights rand i zero = refl
    length-random_weights rand i (suc n) = ap suc (length-random_weights rand (i + 1) n)

    -- The constructor gives the vectors these lengths.
    pub create-IsShaped :
        (rand : ℕ → ℕ) (vocab_size embedding_dim hidden_dim num_layers history_length : ℕ)
        → 0 < vocab_size
        → vocab_size ≤ u32_mod
        → vocab_size * embedding_dim < u64_mod
        → num_layers * (hidden_dim * hidden_dim * 4) < u64_mod
        → IsShaped (create f net rand vocab_size embedding_dim hidden_dim num_layers history_length)
    unfolding create
    create-IsShaped rand vocab_size embedding_dim hidden_dim num_layers history_length some_tokens
          few_tokens embeddings_fit layers_fit =
        record {
          embeddings =
              length-random_weights rand 0 (mul64 vocab_size embedding_dim)
              ∙ mod-eq_of_lt embeddings_fit;
          embeddings_fit = embeddings_fit;
          layers =
              length-random_weights rand (mul64 vocab_size embedding_dim)
                (mul64 (mul64 (mul64 num_layers hidden_dim) hidden_dim) 4)
              ∙ mul64_square num_layers hidden_dim layers_fit;
          layers_fit = layers_fit;
          some_tokens = some_tokens;
          few_tokens = few_tokens;
        }

    forward_layers-inside :
        (p : LstmPredictor f) (embedded : List f.Float) (layer left : ℕ) (state : LstmState f)
        → layer + left ≤ p.num_layers
        → IsShaped p
        → (after : LstmState f) × (forward_layers f net p embedded layer left state ≡ some after)
    unfolding forward_layers slice
    forward_layers-inside p embedded layer zero state h s = (state, refl)
    forward_layers-inside p embedded layer (suc left) state h s =
        let d = p.hidden_dim * p.hidden_dim * 4 in
        let start = layer_size-exact p layer (omega arith) s in
        let size = layer_size-exact p 1 (omega arith) s in
        let spread = add-mul layer 1 d in
        let all : (layer + 1) * d ≤ p.num_layers * d = mul-le-mul_right d (omega arith) in
        let within : leb (layer_size f net p layer + layer_size f net p 1) (length p.lstm_weights)
            ≡ true =
          ground (arith, start, size, spread, all, s.layers) in
        let weights =
          take (layer_size f net p 1) (drop (layer_size f net p layer) p.lstm_weights) in
        let (after, e) =
          forward_layers-inside p embedded (layer + 1) left
            (lstm_forward f net embedded state weights) (omega arith) s in
        (after, rw (within, e) refl)

    forward_tokens-inside :
        (p : LstmPredictor f) (history : List ℕ) (t left : ℕ) (state : LstmState f)
        → t + left ≤ length history
        → IsShaped p
        → (after : LstmState f) × (forward_tokens f net p history t left state ≡ some after)
    unfolding forward_tokens
    forward_tokens-inside p history t zero state h s = (state, refl)
    forward_tokens-inside p history t (suc left) state h s =
        let (token, found) = get_elem?-inside history t (omega arith) in
        let (embedded, e) = embed_token-inside p token s in
        let (next, e') = forward_layers-inside p embedded 0 p.num_layers state (omega arith) s in
        let (after, e'') = forward_tokens-inside p history (t + 1) left next (omega arith) s in
        (after, rw (found, e, e', e'') refl)

    length-logits_from :
        (p : LstmPredictor f) (hidden : List f.Float) (i n : ℕ)
        → length (logits_from f net p hidden i n) ≡ n
    unfolding logits_from
    length-logits_from p hidden i zero = refl
    length-logits_from p hidden i (suc n) = ap suc (length-logits_from p hidden (i + 1) n)

    max_element-some :
        (xs : List f.Float) → 0 < length xs → (x : f.Float) × (max_element f net xs ≡ some x)
    unfolding max_element
    max_element-some [] h = absurd (omega arith)
    max_element-some (x ∷ xs) h = (_, refl)

    length-softmax :
        (best : f.Float) (logits : List f.Float)
        → length (softmax f net best logits) ≡ length logits
    unfolding softmax
    length-softmax best logits = length-map _ _ ∙ length-map logits _

    compute_output_probs-inside :
        (p : LstmPredictor f) (hidden : List f.Float)
        → IsShaped p
        → (probs : List f.Float) × (compute_output_probs f net p hidden ≡ some probs)
          × (length probs ≡ p.vocab_size)
    unfolding compute_output_probs
    compute_output_probs-inside p hidden s =
        let logits = logits_from f net p hidden 0 p.vocab_size in
        let size = length-logits_from p hidden 0 p.vocab_size in
        let (best, e) = max_element-some logits (omega (arith, size, s.some_tokens)) in
        (softmax f net best logits, rw e refl, length-softmax best logits ∙ size)

    tokens-number_from :
        (i : ℕ) (probs : List f.Float)
        → i + length probs ≤ u32_mod
        → map (λ e. e.0) (number_from f net i probs) ≡ count_up i (length probs)
    unfolding number_from count_up
    tokens-number_from i [] h = refl
    tokens-number_from i (x ∷ probs) h =
        let small : i % u32_mod ≡ i = mod-eq_of_lt (omega arith) in
        rw (small, tokens-number_from (i + 1) probs (omega arith)) refl

    -- The network gives every token of the vocabulary a probability, in the order of the tokens.
    pub token_probs-inside :
        (p : LstmPredictor f) (history : List ℕ)
        → IsShaped p
        → (entries : List (ℕ × f.Float)) × (token_probs f net p history ≡ some entries)
          × (map (λ e. e.0) entries ≡ count_up 0 p.vocab_size)
    unfolding token_probs
    token_probs-inside p history s =
        let start : LstmState f = record {
          hidden = replicate p.hidden_dim f.float_zero;
          cell = replicate p.hidden_dim f.float_zero;
        } in
        let fitted = fit_history p.history_length history in
        let (state, e) =
          forward_tokens-inside p fitted 0 p.history_length start
            (omega (arith, length-fit_history p.history_length history)) s in
        let (probs, e', size) = compute_output_probs-inside p state.hidden s in
        (
          number_from f net 0 probs,
          rw (e, e') refl,
          tokens-number_from 0 probs (omega (arith, size, s.few_tokens)) ∙ ap (count_up 0) size,
        )
