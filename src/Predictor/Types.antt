-- ===== src/Predictor/Types.antt =====
-- The data of `LSTMPredictor` (src/prefetcher/lstm_predictor.h), and what it calls of the C++ library:
-- further `float` operations, and `std::sort`.
use mathlib.Core.List.{Perm}
use cxl_spec_kv.Common.{
  ℕ, ◌+◌, Bool, true, false, List, [], ◌∷◌, ◌≡◌, zero, suc, Option, none, some,
}
use cxl_spec_kv.Common.Words.{mul64}
use cxl_spec_kv.Common.Tables.{Every}
use cxl_spec_kv.Engine.Floats.{Floats}

infixl 5 ◌>>=◌
abbrev pub ◌>>=◌ {ℓ κ} : {A : Type ℓ} {B : Type κ} → Option A → (A → Option B) → Option B
none >>= g = none
some a >>= g = g a

-- `before` is a strict weak order of the values at which `P` holds: irreflexive, transitive, and
-- transitive where it does not hold.
abbrev pub IsStrictWeak : {A : Type 0} → (A → A → Bool) → (A → Type 0) → Type 0
IsStrictWeak {A} before P =
    ((a : A) → P a → before a a ≡ false)
    × ((a b c : A) → P a → P b → P c → before a b ≡ true → before b c ≡ true → before a c ≡ true)
    × ((a b c : A) → P a → P b → P c → before a b ≡ false → before b c ≡ false → before a c ≡ false)

module _ (f : Floats) where
  open f use {Float, float_mul, float_div, float_gt}

  -- A token and its probability.
  abbrev pub Entry : Type 0
  Entry = ℕ × Float

  -- Nothing is assumed of these.
  pub record Network : Type 0 where
    pub float_add : Float → Float → Float
    pub float_sub : Float → Float → Float
    pub float_exp : Float → Float
    pub float_tanh : Float → Float
    -- 0.5f and 0.1f.
    pub float_half : Float
    pub float_tenth : Float
    -- A conversion of an `int`, and `RAND_MAX`.
    pub float_of_int : ℕ → Float
    pub rand_max : ℕ

  -- No element is less confident than a later one, nor than any of the list.
  abbrev pub NoneAbove : Float → List (ℕ × Float) → Type 0
  NoneAbove confidence [] = Unit
  NoneAbove confidence ((t, c) ∷ rest) = (float_gt c confidence ≡ false) × NoneAbove confidence rest

  abbrev pub Descending : List (ℕ × Float) → Type 0
  Descending [] = Unit
  Descending ((t, c) ∷ rest) = NoneAbove c rest × Descending rest

  -- No element comes before an earlier one.
  abbrev pub NoneBefore : (Entry → Entry → Bool) → Entry → List Entry → Type 0
  NoneBefore before a [] = Unit
  NoneBefore before a (b ∷ rest) = (before b a ≡ false) × NoneBefore before a rest

  abbrev pub Ordered : (Entry → Entry → Bool) → List Entry → Type 0
  Ordered before [] = Unit
  Ordered before (a ∷ rest) = NoneBefore before a rest × Ordered before rest

  -- `std::sort`, with what is documented of it: given a comparison that is a strict weak order of the
  -- elements, it reorders them, so that none comes before an earlier one. Nothing is assumed of other
  -- comparisons.
  pub record Sort : Type 1 where
    pub sort : (Entry → Entry → Bool) → List Entry → List Entry
    pub sort_lem :
        (before : Entry → Entry → Bool) (P : Entry → Type 0) (entries : List Entry)
        → IsStrictWeak before P
        → Every P entries
        → Perm entries (sort before entries) × Ordered before (sort before entries)

  pub record LstmPredictor : Type 0 where
    pub vocab_size : ℕ
    pub embedding_dim : ℕ
    pub hidden_dim : ℕ
    pub num_layers : ℕ
    pub history_length : ℕ
    pub embedding_weights : List Float
    pub lstm_weights : List Float
    pub output_weights : List Float

  pub record LstmState : Type 0 where
    pub hidden : List Float
    pub cell : List Float

  module _ (net : Network) where
    open net use {float_sub, float_half, float_tenth, float_of_int, rand_max}

    -- So many weights, from the numbers that `rand` gives from index `i` on.
    unfoldable pub random_weights : (ℕ → ℕ) → ℕ → ℕ → List Float
    random_weights rand i zero = []
    random_weights rand i (suc n) =
        float_mul (float_sub (float_div (float_of_int (rand i)) (float_of_int rand_max)) float_half)
          float_tenth
        ∷ random_weights rand (i + 1) n

    unfoldable pub create : (ℕ → ℕ) → ℕ → ℕ → ℕ → ℕ → ℕ → LstmPredictor
    unfolding random_weights
    create rand vocab_size embedding_dim hidden_dim num_layers history_length =
        let embeddings = mul64 vocab_size embedding_dim in
        let layers = mul64 (mul64 (mul64 num_layers hidden_dim) hidden_dim) 4 in
        let outputs = mul64 hidden_dim vocab_size in
        record {
          vocab_size = vocab_size;
          embedding_dim = embedding_dim;
          hidden_dim = hidden_dim;
          num_layers = num_layers;
          history_length = history_length;
          embedding_weights = random_weights rand 0 embeddings;
          lstm_weights = random_weights rand embeddings layers;
          output_weights = random_weights rand (embeddings + layers) outputs;
        }
