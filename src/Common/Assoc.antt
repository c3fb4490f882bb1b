-- ===== src/Common/Assoc.antt =====
-- A `std::unordered_map` with 64-bit keys, as an association list. The order of iteration is that
-- of the list.
use Prim.Native.Nat.{ℕ, ◌+◌}
use mathlib.Core.Path.{◌≡◌, refl, subst₂}
use mathlib.Core.Logic.{inl, inr}
use mathlib.Core.List.{List, [], ◌∷◌}
use mathlib.Core.Option
use mathlib.Core.Option.{Option, none, some}
use native.Mathlib.Omega.{arith}
use cxl_spec_kv.Common.Tests.{◌==◌, if◌then◌else◌, Bool-cases, ==_iff}

module _ {ℓ} {V : Type ℓ} where
  -- `find`.
  unfoldable pub lookup : ℕ → List (ℕ × V) → Option V
  lookup k [] = none
  lookup k ((j, v) ∷ m) = if j == k then some v else lookup k m

  -- `erase`.
  unfoldable pub erase : ℕ → List (ℕ × V) → List (ℕ × V)
  erase k [] = []
  erase k ((j, w) ∷ m) = if j == k then erase k m else (j, w) ∷ erase k m

  -- `map[k] = v`.
  unfoldable pub insert : ℕ → V → List (ℕ × V) → List (ℕ × V)
  insert k v [] = (k, v) ∷ []
  insert k v ((j, w) ∷ m) = if j == k then (k, v) ∷ m else (j, w) ∷ insert k v m

  -- A loop that updates every value in place.
  unfoldable pub map_values : (V → V) → List (ℕ × V) → List (ℕ × V)
  map_values f [] = []
  map_values f ((j, w) ∷ m) = (j, f w) ∷ map_values f m

  pub lookup-insert :
      (key asked : ℕ) (new : V) (entries : List (ℕ × V))
      → lookup asked (insert key new entries)
        ≡ (if key == asked then some new else lookup asked entries)
  unfolding lookup insert
  lookup-insert key asked new [] = refl
  lookup-insert key asked new ((i, w) ∷ rest) = ground (arith, lookup-insert key asked new rest)

  pub lookup-erase :
      (k j : ℕ) (m : List (ℕ × V)) → lookup j (erase k m) ≡ (if k == j then none else lookup j m)
  unfolding lookup erase
  lookup-erase k j [] = ground arith
  lookup-erase k j ((i, w) ∷ m) = ground (arith, lookup-erase k j m)

  pub lookup-map_values :
      (f : V → V) (j : ℕ) (m : List (ℕ × V)) → lookup j (map_values f m) ≡ Option.map f (lookup j m)
  unfolding lookup map_values
  lookup-map_values f j [] = refl
  lookup-map_values f j ((i, w) ∷ m) = ground (arith, lookup-map_values f j m)

-- A property of every key and value.
abbrev pub All {ℓ κ} : {V : Type ℓ} → (ℕ → V → Type κ) → List (ℕ × V) → Type κ
All P [] = Unit
All P ((k, v) ∷ m) = P k v × All P m

-- No key twice.
abbrev pub Distinct {ℓ} : {V : Type ℓ} → List (ℕ × V) → Type ℓ
Distinct [] = Unit
Distinct ((k, v) ∷ m) = (lookup k m ≡ none) × Distinct m

module _ {ℓ κ} {V : Type ℓ} (P : ℕ → V → Type κ) where
  pub All-insert : (k : ℕ) (v : V) (m : List (ℕ × V)) → P k v → All P m → All P (insert k v m)
  unfolding insert
  All-insert k v [] p a = (p, tt)
  All-insert k v ((j, w) ∷ m) p a = elim (Bool-cases (j == k)) [
    | inl e ↦ rw e (p, a.1)
    | inr e ↦ rw e (a.0, All-insert k v m p a.1)
  ]

  pub All-erase : (k : ℕ) (m : List (ℕ × V)) → All P m → All P (erase k m)
  unfolding erase
  All-erase k [] a = tt
  All-erase k ((j, w) ∷ m) a = elim (Bool-cases (j == k)) [
    | inl e ↦ rw e (All-erase k m a.1)
    | inr e ↦ rw e (a.0, All-erase k m a.1)
  ]

  pub All-map_values :
      (f : V → V) (m : List (ℕ × V))
      → ((k : ℕ) (v : V) → P k v → P k (f v))
      → All P m
      → All P (map_values f m)
  unfolding map_values
  All-map_values f [] h a = tt
  All-map_values f ((j, w) ∷ m) h a = (h j w a.0, All-map_values f m h a.1)

  pub All-lookup : (k : ℕ) (m : List (ℕ × V)) (v : V) → lookup k m ≡ some v → All P m → P k v
  unfolding lookup
  All-lookup k [] v e a = cc
  All-lookup k ((j, w) ∷ m) v e a = elim (Bool-cases (j == k)) [
    | inl h ↦
        let same : j ≡ k = (==_iff j k).0 h in
        let found : w ≡ v = ground arith in subst₂ P same found a.0
    | inr h ↦ All-lookup k m v (rw h at e) a.1
  ]

module _ {ℓ} {V : Type ℓ} where
  pub Distinct-insert : (k : ℕ) (v : V) (m : List (ℕ × V)) → Distinct m → Distinct (insert k v m)
  unfolding insert lookup
  Distinct-insert k v [] d = (refl, tt)
  Distinct-insert k v ((j, w) ∷ m) d =
      ground (arith, Distinct-insert k v m d.1, lookup-insert k j v m)

  pub Distinct-erase : (k : ℕ) (m : List (ℕ × V)) → Distinct m → Distinct (erase k m)
  unfolding erase
  Distinct-erase k [] d = tt
  Distinct-erase k ((j, w) ∷ m) d = ground (arith, Distinct-erase k m d.1, lookup-erase k j m)

  pub Distinct-map_values : (f : V → V) (m : List (ℕ × V)) → Distinct m → Distinct (map_values f m)
  unfolding map_values
  Distinct-map_values f [] d = tt
  Distinct-map_values f ((j, w) ∷ m) d =
      (rw (lookup-map_values f j m, d.0) refl, Distinct-map_values f m d.1)

module _ {ℓ} {V : Type ℓ} (weight : V → ℕ) where
  -- The sum over all values.
  unfoldable pub total : List (ℕ × V) → ℕ
  total [] = 0
  total ((k, v) ∷ m) = weight v + total m

  pub total-insert :
      (k : ℕ) (v : V) (m : List (ℕ × V))
      → lookup k m ≡ none
      → total (insert k v m) ≡ total m + weight v
  unfolding total insert lookup
  total-insert k v [] e = omega arith
  total-insert k v ((j, w) ∷ m) e = ground (arith, total-insert k v m)

  pub total-absent : (k : ℕ) (m : List (ℕ × V)) → lookup k m ≡ none → total (erase k m) ≡ total m
  unfolding total erase lookup
  total-absent k [] e = refl
  total-absent k ((j, w) ∷ m) e = ground (arith, total-absent k m)

  pub total-erase :
      (k : ℕ) (v : V) (m : List (ℕ × V))
      → Distinct m
      → lookup k m ≡ some v
      → total (erase k m) + weight v ≡ total m
  unfolding total erase lookup
  total-erase k v [] d e = ground arith
  total-erase k v ((j, w) ∷ m) d e = elim (Bool-cases (j == k)) [
    | inl h ↦
        let same : j ≡ k = (==_iff j k).0 h in
        let gone : lookup k m ≡ none = subst₂ (λ x (_ : ℕ). lookup x m ≡ none) same same d.0 in
        ground (arith, total-absent k m gone, h)
    | inr h ↦ ground (arith, total-erase k v m d.1, h)
  ]
