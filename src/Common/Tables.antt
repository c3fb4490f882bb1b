-- ===== src/Common/Tables.antt =====
-- Tables with one property for every slot.
use Prim.Native.Nat.{ℕ, zero, suc, ◌<◌}
use mathlib.Core.Path.{◌≡◌, refl, subst}
use mathlib.Core.List.{List, [], ◌∷◌, map}
use mathlib.Core.Option.{some}
use native.Mathlib.Omega.{arith}
use cxl_spec_kv.Common.Lists.{get_elem?, set, replicate, length}

abbrev pub Every {ℓ κ} : {A : Type ℓ} → (A → Type κ) → List A → Type κ
Every P [] = Unit
Every P (x ∷ xs) = P x × Every P xs

module _ {ℓ κ} {A : Type ℓ} (P : A → Type κ) where
  pub Every-set : (xs : List A) (i : ℕ) (v : A) → P v → Every P xs → Every P (set xs i v)
  Every-set [] i v p e = tt
  Every-set (x ∷ xs) zero v p e = (p, e.1)
  Every-set (x ∷ xs) (suc i) v p e = (e.0, Every-set xs i v p e.1)

  pub Every-get : (xs : List A) (i : ℕ) (v : A) → get_elem? xs i ≡ some v → Every P xs → P v
  Every-get [] i v h e = cc
  Every-get (x ∷ xs) zero v h e = let same : x ≡ v = cc in subst P same e.0
  Every-get (x ∷ xs) (suc i) v h e = Every-get xs i v h e.1

  pub Every-replicate : (n : ℕ) (v : A) → P v → Every P (replicate n v)
  Every-replicate zero v p = tt
  Every-replicate (suc n) v p = (p, Every-replicate n v p)

pub Every-map {ℓ κ ι} :
    {A : Type ℓ} (P : A → Type κ) (Q : A → Type ι) (f : A → A) (xs : List A)
    → ((x : A) → P x → Q (f x))
    → Every P xs
    → Every Q (map f xs)
Every-map P Q f [] h e = tt
Every-map P Q f (x ∷ xs) h e = (h x e.0, Every-map P Q f xs h e.1)

-- A slot of a table that is long enough.
pub get_in_range {ℓ} :
    {A : Type ℓ} (xs : List A) (i : ℕ) → i < length xs → (v : A) × (get_elem? xs i ≡ some v)
get_in_range [] i h = elim h [ ]
get_in_range (x ∷ xs) zero h = (x, refl)
get_in_range (x ∷ xs) (suc i) h = get_in_range xs i (omega arith)
