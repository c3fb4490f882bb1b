-- ===== src/Predictor/Tests.antt =====
-- Runs of the predictor's model with whole numbers and an insertion sort, and its theorem at them.
use mathlib.Core.List.{Perm}
use mathlib.Core.List.Perm
use cxl_spec_kv.Common.{
  ℕ, ◌+◌, ◌≡◌, refl, Bool, true, false, List, [], ◌∷◌, ◌++◌, some, if◌then◌else◌, length, map, min,
  arith, Bool-cases, inl, inr,
}
use cxl_spec_kv.Common.Tables.{Every}
use cxl_spec_kv.Engine.Floats.{Floats, whole_numbers}
use cxl_spec_kv.Predictor.Types.{
  Network, LstmPredictor, Sort, Entry, Descending, NoneBefore, Ordered, IsStrictWeak, create,
}
use cxl_spec_kv.Predictor.Network.{token_probs, predict_top_k, fit_history, slice}
use cxl_spec_kv.Predictor.Reads.{IsShaped, create-IsShaped, count_up}
use cxl_spec_kv.Predictor.Best.{NoneBetter, predict_top_k-best}

-- Whole numbers, with probabilities that are not divided by their sum.
abbrev undivided : Floats
undivided = record whole_numbers { float_div = λ x y. x }

abbrev Pair : Type 0
Pair = Entry undivided

module _ (before : Pair → Pair → Bool) where
  unfoldable insert : Pair → List Pair → List Pair
  insert e [] = e ∷ []
  insert e (x ∷ xs) = if before e x then e ∷ x ∷ xs else x ∷ insert e xs

  unfoldable sort : List Pair → List Pair
  unfolding insert
  sort [] = []
  sort (x ∷ xs) = insert x (sort xs)

  insert-Perm : (e : Pair) (xs : List Pair) → Perm (e ∷ xs) (insert e xs)
  unfolding insert
  insert-Perm e [] = Perm.refl (e ∷ [])
  insert-Perm e (x ∷ xs) = elim (Bool-cases (before e x)) [
    | inl above ↦ rw above (Perm.refl (e ∷ x ∷ xs))
    | inr below ↦ rw below (Perm.trans (Perm.swap x e xs) (Perm.cons x (insert-Perm e xs)))
  ]

  sort-Perm : (xs : List Pair) → Perm xs (sort xs)
  unfolding sort
  sort-Perm [] = Perm.refl []
  sort-Perm (x ∷ xs) = Perm.trans (Perm.cons x (sort-Perm xs)) (insert-Perm x (sort xs))

  module _ (P : Pair → Type 0) (weak : IsStrictWeak before P) where
    insert-Every : (e : Pair) (xs : List Pair) → P e → Every P xs → Every P (insert e xs)
    unfolding insert
    insert-Every e [] p ps = (p, tt)
    insert-Every e (x ∷ xs) p ps = elim (Bool-cases (before e x)) [
      | inl above ↦ rw above (p, ps)
      | inr below ↦ rw below (ps.0, insert-Every e xs p ps.1)
    ]

    sort-Every : (xs : List Pair) → Every P xs → Every P (sort xs)
    unfolding sort
    sort-Every [] ps = tt
    sort-Every (x ∷ xs) ps = insert-Every x (sort xs) ps.0 (sort-Every xs ps.1)

    later :
        (e x y : Pair)
        → P e
        → P x
        → P y
        → before e x ≡ true
        → before y x ≡ false
        → before y e ≡ false
    later e x y pe px py first back = elim (Bool-cases (before y e)) [
      | inl up ↦ absurd (ground (arith, weak.1 y e x py pe px up first, back))
      | inr down ↦ down
    ]

    NoneBefore-trans :
        (e x : Pair) (xs : List Pair)
        → P e
        → P x
        → Every P xs
        → before e x ≡ true
        → NoneBefore undivided before x xs
        → NoneBefore undivided before e xs
    NoneBefore-trans e x [] pe px ps first h = tt
    NoneBefore-trans e x (y ∷ xs) pe px ps first h =
        (later e x y pe px ps.0 first h.0, NoneBefore-trans e x xs pe px ps.1 first h.1)

    insert-NoneBefore :
        (x e : Pair) (xs : List Pair)
        → before e x ≡ false
        → NoneBefore undivided before x xs
        → NoneBefore undivided before x (insert e xs)
    unfolding insert
    insert-NoneBefore x e [] first h = (first, tt)
    insert-NoneBefore x e (y ∷ xs) first h = elim (Bool-cases (before e y)) [
      | inl above ↦ rw above (first, h)
      | inr below ↦ rw below (h.0, insert-NoneBefore x e xs first h.1)
    ]

    insert-Ordered :
        (e : Pair) (xs : List Pair)
        → P e
        → Every P xs
        → Ordered undivided before xs
        → Ordered undivided before (insert e xs)
    unfolding insert
    insert-Ordered e [] p ps h = (tt, tt)
    insert-Ordered e (x ∷ xs) p ps h = elim (Bool-cases (before e x)) [
      | inl above ↦ rw above (
        (
          later e x x p ps.0 ps.0 above (weak.0 x ps.0),
          NoneBefore-trans e x xs p ps.0 ps.1 above h.0,
        ),
        h,
      )
      | inr below ↦ rw below (insert-NoneBefore x e xs below h.0, insert-Ordered e xs p ps.1 h.1)
    ]

    sort-Ordered : (xs : List Pair) → Every P xs → Ordered undivided before (sort xs)
    unfolding sort
    sort-Ordered [] ps = tt
    sort-Ordered (x ∷ xs) ps =
        insert-Ordered x (sort xs) ps.0 (sort-Every xs ps.1) (sort-Ordered xs ps.1)

abbrev insertion : Sort undivided
insertion = record {
  sort = sort;
  sort_lem =
      λ before P entries weak ps. (sort-Perm before entries, sort-Ordered before P weak entries ps);
}

abbrev network : Network undivided
network = record {
  float_add = λ x y. x + y;
  float_sub = λ x y. x;
  float_exp = λ x. x + 1;
  float_tanh = λ x. x;
  float_half = 2;
  float_tenth = 3;
  float_of_int = λ n. n;
  rand_max = 1;
}

-- Three tokens.
abbrev predictor : LstmPredictor undivided
predictor = create undivided network (λ i. i + 1) 3 2 2 1 4

predictor-IsShaped : IsShaped undivided predictor
predictor-IsShaped =
    create-IsShaped undivided network (λ i. i + 1) 3 2 2 1 4 (omega arith) (omega arith)
      (omega arith) (omega arith)

-- Every whole number is one that the comparison orders.
abbrev IsWhole : ℕ → Type 0
IsWhole n = Unit

IsWhole-IsStrictWeak : IsStrictWeak undivided.float_gt IsWhole
IsWhole-IsStrictWeak =
    (λ a p. ground arith, λ a b c p q r h i. ground arith, λ a b c p q r h i. ground arith)

all-IsWhole : (entries : List Pair) → Every (λ (e : Pair). IsWhole e.1) entries
all-IsWhole [] = tt
all-IsWhole (e ∷ entries) = (tt, all-IsWhole entries)

abbrev history : List ℕ
history = 1 ∷ 7 ∷ []

predict_top_k-best_example :
    (all best rest : List Pair) × (token_probs undivided network predictor history ≡ some all)
    × (map (λ e. e.0) all ≡ count_up 0 predictor.vocab_size)
    × (predict_top_k undivided network insertion predictor history 2 ≡ some best)
    × Perm all (best ++ rest)
    × (length best ≡ min 2 predictor.vocab_size)
    × Descending undivided best
    × NoneBetter undivided best rest
predict_top_k-best_example =
    predict_top_k-best undivided network insertion predictor history 2 IsWhole predictor-IsShaped
      IsWhole-IsStrictWeak (λ all e. all-IsWhole all)

-- The more probable tokens of three.
two_best :
    predict_top_k undivided network insertion predictor history 2
    ≡ some ((2, 297001) ∷ (1, 275401) ∷ [])
unfolding predict_top_k create sort fit_history slice
two_best = refl
