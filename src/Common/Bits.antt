-- ===== src/Common/Bits.antt =====
-- `&`, `|` and shifts as arithmetic, at every width. The laws go digit by digit.
use Prim.Native.Nat.{
  ℕ, zero, suc, ◌+◌, ◌-◌, ◌*◌, ◌/◌, ◌%◌, ◌^◌, ◌≤◌, ◌<◌, min, max, bit_and, bit_or, digits,
  bit_and-bitwise, bit_or-bitwise,
}
use mathlib.Core.Path.{◌≡◌, refl, ap, sym, ◌∙◌}
use native.Mathlib.Nat.{
  pow-suc, one-le-pow, mod-lt, div-div-eq-div-mul, mul_comm, div-add-mod, mul-add-mod_self_left,
  mod-eq_of_lt, mul-one, div-one, add-zero, add-suc, mul_assoc, div-lt_iff_lt-mul,
}
use native.Mathlib.Omega.{arith}
use cxl_spec_kv.Common.Words.{u64_mod, not64}

abbrev and_with_fuel : ℕ → ℕ → ℕ → ℕ
and_with_fuel = digits (λ b. zero) min

abbrev or_with_fuel : ℕ → ℕ → ℕ → ℕ
or_with_fuel = digits (λ b. b) max

-- The fuel of the definition does not matter once it reaches the first argument.
and_fuel_eq : (f g a b : ℕ) → a ≤ f → a ≤ g → and_with_fuel f a b ≡ and_with_fuel g a b
and_fuel_eq zero zero a b p q = refl
and_fuel_eq zero (suc g) zero b p q = refl
and_fuel_eq zero (suc g) (suc a) b p q = absurd (omega arith)
and_fuel_eq (suc f) zero zero b p q = refl
and_fuel_eq (suc f) zero (suc a) b p q = absurd (omega arith)
and_fuel_eq (suc f) (suc g) zero b p q = refl
and_fuel_eq (suc f) (suc g) (suc a) b p q =
    omega (arith, and_fuel_eq f g (suc a / 2) (b / 2) (omega arith) (omega arith))

or_fuel_eq : (n m a b : ℕ) → a ≤ n → a ≤ m → or_with_fuel n a b ≡ or_with_fuel m a b
or_fuel_eq zero zero a b p q = refl
or_fuel_eq zero (suc m) zero b p q = refl
or_fuel_eq zero (suc m) (suc a) b p q = absurd (omega arith)
or_fuel_eq (suc n) zero zero b p q = refl
or_fuel_eq (suc n) zero (suc a) b p q = absurd (omega arith)
or_fuel_eq (suc n) (suc m) zero b p q = refl
or_fuel_eq (suc n) (suc m) (suc a) b p q =
    omega (arith, or_fuel_eq n m (suc a / 2) (b / 2) (omega arith) (omega arith))

bit_and_zero_left : (b : ℕ) → bit_and 0 b ≡ 0
bit_and_zero_left b = bit_and-bitwise 0 b

bit_or_zero_left : (b : ℕ) → bit_or 0 b ≡ b
bit_or_zero_left b = bit_or-bitwise 0 b

pub bit_and_step : (x y : ℕ) → bit_and x y ≡ bit_and (x / 2) (y / 2) * 2 + min (x % 2) (y % 2)
bit_and_step zero y = omega (arith, bit_and_zero_left y, bit_and_zero_left (y / 2))
bit_and_step (suc x) y = omega (
  arith,
  bit_and-bitwise (suc x) y,
  bit_and-bitwise (suc x / 2) (y / 2),
  and_fuel_eq x (suc x / 2) (suc x / 2) (y / 2) (omega arith) (omega arith),
)

pub bit_or_step : (x y : ℕ) → bit_or x y ≡ bit_or (x / 2) (y / 2) * 2 + max (x % 2) (y % 2)
bit_or_step zero y = omega (arith, bit_or_zero_left y, bit_or_zero_left (y / 2))
bit_or_step (suc x) y = omega (
  arith,
  bit_or-bitwise (suc x) y,
  bit_or-bitwise (suc x / 2) (y / 2),
  or_fuel_eq x (suc x / 2) (suc x / 2) (y / 2) (omega arith) (omega arith),
)

bit_and-zero_below : (n a : ℕ) → a ≤ n → bit_and a 0 ≡ 0
bit_and-zero_below n zero h = refl
bit_and-zero_below zero (suc a) h = absurd (omega arith)
bit_and-zero_below (suc n) (suc a) h =
    omega (arith, bit_and_step (suc a) 0, bit_and-zero_below n (suc a / 2) (omega arith))

pub bit_and-zero : (a : ℕ) → bit_and a 0 ≡ 0
bit_and-zero a = bit_and-zero_below a a (omega arith)

bit_or-zero_below : (n a : ℕ) → a ≤ n → bit_or a 0 ≡ a
bit_or-zero_below n zero h = refl
bit_or-zero_below zero (suc a) h = absurd (omega arith)
bit_or-zero_below (suc n) (suc a) h =
    omega (arith, bit_or_step (suc a) 0, bit_or-zero_below n (suc a / 2) (omega arith))

pub bit_or-zero : (a : ℕ) → bit_or a 0 ≡ a
bit_or-zero a = bit_or-zero_below a a (omega arith)

double_shift : (m k : ℕ) → m * 2 ^ suc k ≡ 2 * (m * 2 ^ k)
double_shift m k = omega (arith, ap (λ (t : ℕ). m * t) (pow-suc 2 k))

half_shift : (a k : ℕ) → a / 2 / 2 ^ k ≡ a / 2 ^ suc k
half_shift a k = rw (div-div-eq-div-mul a 2 (2 ^ k), pow-suc 2 k, mul_comm (2 ^ k) 2) refl

mod_double : (a p : ℕ) → 0 < p → a % (2 * p) ≡ a / 2 % p * 2 + a % 2
mod_double a p h =
    let q = a / 2 / p in
    let r = a / 2 % p * 2 + a % 2 in
    let bound = mod-lt (a / 2) h in
    let whole : a ≡ 2 * p * q + r = omega (arith, div-add-mod (a / 2) p) in
    ap (λ (t : ℕ). t % (2 * p)) whole
    ∙ (mul-add-mod_self_left (2 * p) q r ∙ mod-eq_of_lt (omega arith))

-- A mask of `k` ones at the bottom keeps the remainder by `2 ^ k`.
pub bit_and-low_mask : (k a : ℕ) → bit_and a (2 ^ k - 1) ≡ a % 2 ^ k
bit_and-low_mask zero a = omega (arith, bit_and-zero a)
bit_and-low_mask (suc k) a =
    let t = one-le-pow k 2 (omega arith) in
    let s : 2 ^ suc k ≡ 2 * 2 ^ k = omega (arith, pow-suc 2 k) in
    let e : (2 ^ suc k - 1) / 2 ≡ 2 ^ k - 1 = omega arith in
    let o : (2 ^ suc k - 1) % 2 ≡ 1 = omega arith in
    bit_and_step a (2 ^ suc k - 1)
    ∙ rw (e, o, bit_and-low_mask k (a / 2), s, mod_double a (2 ^ k) t) (omega arith)

-- A mask whose `k` lowest bits are zero clears them.
pub bit_and-high_mask : (k a m : ℕ) → bit_and a (m * 2 ^ k) ≡ bit_and (a / 2 ^ k) m * 2 ^ k
bit_and-high_mask zero a m = simp (mul-one, div-one)
bit_and-high_mask (suc k) a m =
    let d = double_shift m k in
    let half : m * 2 ^ suc k / 2 ≡ m * 2 ^ k = omega arith in
    let even : m * 2 ^ suc k % 2 ≡ 0 = omega arith in
    let rec = bit_and-high_mask k (a / 2) m in
    bit_and_step a (m * 2 ^ suc k)
    ∙ rw (half, even, rec, half_shift a k)
        (omega (arith, double_shift (bit_and (a / 2 ^ suc k) m) k))

-- `(q << k) | r` is a sum when `r` fits in `k` bits.
pub bit_or-shifted : (k q r : ℕ) → r < 2 ^ k → bit_or (q * 2 ^ k) r ≡ q * 2 ^ k + r
bit_or-shifted zero q r h = ground (arith, bit_or-zero q)
bit_or-shifted (suc k) q r h = ground (
  arith,
  bit_or_step (q * 2 ^ suc k) r,
  double_shift q k,
  bit_or-shifted k q (r / 2) (omega (arith, pow-suc 2 k)),
)

pub pow-add : (j k : ℕ) → 2 ^ (j + k) ≡ 2 ^ j * 2 ^ k
pow-add j zero = rw (add-zero, mul-one) refl
pow-add j (suc k) =
    rw (add-suc, pow-suc 2 (j + k), pow-suc 2 k, pow-add j k) (mul_assoc (2 ^ j) (2 ^ k) 2)

product_pred : (x y n : ℕ) → 1 ≤ x → 1 ≤ y → x * y ≡ n → n - 1 - (y - 1) ≡ (x - 1) * y
product_pred zero y n hx hy e = absurd (omega arith)
product_pred (suc x) y n hx hy e = let back : suc x - 1 ≡ x = omega arith in rw back (omega arith)

-- Clearing the `k` lowest bits of a 64-bit word, as `x & ~(2^k - 1)`.
pub bit_and-not64 :
    (k a : ℕ) → k ≤ 64 → a < u64_mod → bit_and a (not64 (2 ^ k - 1)) ≡ a / 2 ^ k * 2 ^ k
bit_and-not64 k a h lt =
    let j = 64 - k in
    let one_k = one-le-pow k 2 (omega arith) in
    let one_j = one-le-pow j 2 (omega arith) in
    let width : j + k ≡ 64 = omega arith in
    let total : 2 ^ j * 2 ^ k ≡ u64_mod = sym (pow-add j k) ∙ ap (λ (t : ℕ). 2 ^ t) width in
    let mask : not64 (2 ^ k - 1) ≡ (2 ^ j - 1) * 2 ^ k =
      product_pred (2 ^ j) (2 ^ k) u64_mod one_j one_k total in
    let small : a / 2 ^ k < 2 ^ j = (div-lt_iff_lt-mul one_k).1 (omega arith) in
    rw (mask, bit_and-high_mask, bit_and-low_mask, mod-eq_of_lt small) refl

-- A mask that is applied twice clears no more than once.
bit_and_idem_below : (n a m : ℕ) → a ≤ n → bit_and (bit_and a m) m ≡ bit_and a m
bit_and_idem_below n zero m h = rw (bit_and_zero_left m, bit_and_zero_left m) refl
bit_and_idem_below zero (suc a) m h = absurd (omega arith)
bit_and_idem_below (suc n) (suc a) m h =
    let whole = bit_and_step (suc a) m in
    let c = bit_and (suc a) m in
    let top : c / 2 ≡ bit_and (suc a / 2) (m / 2) = omega arith in
    let low : c % 2 ≡ min (suc a % 2) (m % 2) = omega arith in
    bit_and_step c m
    ∙ rw (top, bit_and_idem_below n (suc a / 2) (m / 2) (omega arith)) (omega (arith, whole))

pub bit_and_idem : (a m : ℕ) → bit_and (bit_and a m) m ≡ bit_and a m
bit_and_idem a m = bit_and_idem_below a a m (omega arith)
