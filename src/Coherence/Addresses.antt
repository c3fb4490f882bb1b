-- ===== src/Coherence/Addresses.antt =====
-- Addresses and cache lines: what a program that uses `CoherenceManager` by address can rely on.

use native.Mathlib.Nat.{pow-le-pow_right, one-le-pow, mul-div_cancel}
use mathlib.Core.Bool.{false≢true}
use cxl_spec_kv.Common.{
  ℕ, true, if◌then◌else◌, ◌≡◌, refl, arith, ◌&&◌, ◌==◌, ◌-◌, ◌*◌, ◌/◌, ◌^◌, ◌<◌, ◌≤◌, ◌∙◌, ap, sym,
  ==_iff, Bool-cases, inl, inr, not,
}
use cxl_spec_kv.Common.Words.{u64_mod, sub64}
use cxl_spec_kv.Common.Bits.{bit_and-not64}
use cxl_spec_kv.Coherence.Types.{shared, modified, invalid, CoherenceManager}
use cxl_spec_kv.Coherence.Directory.{align_to_cache_line, is_cached}
use cxl_spec_kv.Coherence.Methods.{request_read, request_write, invalidate}
use cxl_spec_kv.Coherence.Tiers.{get_state}
use cxl_spec_kv.Coherence.Lines.{line_at, next}
use cxl_spec_kv.Coherence.Refines.{request_read-Follows, request_write-Follows, invalidate-Follows}
use cxl_spec_kv.Coherence.Calls.{step, fetch, store, drop}
use cxl_spec_kv.Coherence.Shape.{step-SameShape, align-SameShape}

-- With a line size that is a power of two, as the cache line of an address is
-- `addr & ~(cache_line_size_ - 1)`, the address loses its remainder.
align-eq-div :
    (k addr : ℕ) (m : CoherenceManager)
    → k < 64
    → m.cache_line_size ≡ 2 ^ k
    → addr < u64_mod
    → align_to_cache_line m addr ≡ addr / 2 ^ k * 2 ^ k
unfolding align_to_cache_line
align-eq-div k addr m h size lt =
    let one = one-le-pow k 2 (omega arith) in
    let fits : 2 ^ k ≤ 2 ^ 63 = pow-le-pow_right (omega arith) {i = k} {j = 63} (omega arith) in
    let mask : sub64 m.cache_line_size 1 ≡ 2 ^ k - 1 = omega arith in
    rw mask (bit_and-not64 k addr (omega arith) lt)

mul-eq_cancel : (p x y : ℕ) → 0 < p → (x * p == y * p) ≡ (x == y)
mul-eq_cancel p x y h = elim (Bool-cases (x == y)) [
  | inl e ↦ let same : x ≡ y = (==_iff x y).0 e in rw (e, same) ((==_iff (y * p) (y * p)).1 refl)
  | inr e ↦
      let differ : (x * p ≡ y * p) → ⊥ = λ q.
        let same : x ≡ y =
          sym (mul-div_cancel x h) ∙ (ap (λ (t : ℕ). t / p) q ∙ mul-div_cancel y h) in
        false≢true (sym e ∙ (==_iff x y).1 same) in
      elim (Bool-cases (x * p == y * p)) [
        | inl f ↦ absurd (differ ((==_iff (x * p) (y * p)).0 f))
        | inr f ↦ rw (e, f) refl
      ]
]

get_state-line_at :
    (addr : ℕ) (m : CoherenceManager)
    → get_state addr m ≡ (line_at m (align_to_cache_line m addr)).state
unfolding get_state line_at
get_state-line_at addr m = refl

module _ (k : ℕ) (small : k < 64) (m : CoherenceManager) (size : m.cache_line_size ≡ 2 ^ k) where
  -- Two addresses are in one line exactly when they agree above the `k` lowest bits.
  align-same_line :
      (a b : ℕ)
      → a < u64_mod
      → b < u64_mod
      → (align_to_cache_line m a == align_to_cache_line m b) ≡ (a / 2 ^ k == b / 2 ^ k)
  align-same_line a b ha hb =
      rw (align-eq-div k a m small size ha, align-eq-div k b m small size hb)
        (mul-eq_cancel (2 ^ k) (a / 2 ^ k) (b / 2 ^ k) (one-le-pow k 2 (omega arith)))

  -- A write with a driver leaves its line MODIFIED, as read by any address in the line, and the
  -- state of every other address as it was.
  pub get_state-request_write :
      (now a b : ℕ)
      → a < u64_mod
      → b < u64_mod
      → m.driver ≡ true
      → get_state b (request_write now a m).0
        ≡ (if a / 2 ^ k == b / 2 ^ k then modified else get_state b m)
  unfolding next step
  get_state-request_write now a b ha hb driver =
      let shape = step-SameShape now (store a) m in
      ground (
        arith,
        get_state-line_at b m,
        get_state-line_at b (request_write now a m).0,
        align-SameShape b shape,
        request_write-Follows now a m (align_to_cache_line m b),
        align-same_line a b ha hb,
      )

  -- A read with a driver leaves its line valid and never takes it out of MODIFIED; a line that was
  -- not cached becomes SHARED. Every other address keeps its state.
  get_state-request_read :
      (now a b : ℕ)
      → a < u64_mod
      → b < u64_mod
      → m.driver ≡ true
      → get_state b (request_read now a m).0 ≡ (
          if (a / 2 ^ k == b / 2 ^ k) && not (is_cached (get_state b m))
          then shared
          else get_state b m)
  unfolding next step
  get_state-request_read now a b ha hb driver =
      let shape = step-SameShape now (fetch a) m in
      ground (
        arith,
        get_state-line_at b m,
        get_state-line_at b (request_read now a m).0,
        align-SameShape b shape,
        request_read-Follows now a m (align_to_cache_line m b),
        align-same_line a b ha hb,
      )

  -- An invalidation leaves its line INVALID, with or without a driver, and no other.
  get_state-invalidate :
      (a b : ℕ)
      → a < u64_mod
      → b < u64_mod
      → get_state b (invalidate a m).0 ≡ (if a / 2 ^ k == b / 2 ^ k then invalid else get_state b m)
  unfolding next step
  get_state-invalidate a b ha hb =
      let shape = step-SameShape 0 (drop a) m in
      ground (
        arith,
        get_state-line_at b m,
        get_state-line_at b (invalidate a m).0,
        align-SameShape b shape,
        invalidate-Follows a m (align_to_cache_line m b),
        align-same_line a b ha hb,
      )
