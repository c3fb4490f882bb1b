-- ===== src/Engine/RunLength.antt =====
-- `run_length_encode` and `run_length_decode` of `FPGACacheEngine`
-- (src/fpga_engine/cache_engine.cpp). A value is the bit pattern of an `int8_t`, which the cast to
-- `uint8_t` keeps.
use cxl_spec_kv.Common.{
  ℕ, zero, suc, ◌+◌, ◌*◌, ◌%◌, ◌<◌, ◌≤◌, ◌≡◌, refl, List, [], ◌∷◌, ◌++◌, arith, length, replicate,
  ltb, ◌==◌, ◌&&◌, Bool-cases, inl, inr, ap, ◌∙◌, true, false, ◌≢◌, ◌⊎◌,
}
use native.Mathlib.Nat.{mod-eq_of_lt}
use native.Mathlib.Numerals.{add-one}
use cxl_spec_kv.Engine.Delta.{AllBytes}

-- The loop and the push of the last run: `current_val`, `count` and the data still to read. The
-- pairs that the code has pushed so far stand in front of the result.
unfoldable pub runs_from : ℕ → ℕ → List ℕ → List ℕ
runs_from current count [] = current ∷ count % 256 ∷ []
runs_from current count (x ∷ xs) = elim ((x == current) && ltb count 255) [
  | true ↦ runs_from current (count + 1) xs
  | false ↦ current ∷ count % 256 ∷ runs_from x 1 xs
]

unfoldable pub run_length_encode : List ℕ → List ℕ
unfolding runs_from
run_length_encode [] = []
run_length_encode (x ∷ xs) = runs_from x 1 xs

-- A last byte without a count is dropped.
unfoldable pub run_length_decode : List ℕ → List ℕ
run_length_decode [] = []
run_length_decode (value ∷ []) = []
run_length_decode (value ∷ count ∷ rest) = replicate count value ++ run_length_decode rest

replicate-suc_append : (n a : ℕ) (xs : List ℕ) → replicate (suc n) a ++ xs ≡ replicate n a ++ a ∷ xs
replicate-suc_append zero a xs = refl
replicate-suc_append (suc n) a xs = ap (◌∷◌ a) (replicate-suc_append n a xs)

run_length_decode-runs_from :
    (current count : ℕ) (xs : List ℕ)
    → count < 256
    → run_length_decode (runs_from current count xs) ≡ replicate count current ++ xs
unfolding run_length_decode runs_from
run_length_decode-runs_from current count [] h = rw (mod-eq_of_lt h) refl
run_length_decode-runs_from current count (x ∷ xs) h =
    elim (Bool-cases ((x == current) && ltb count 255)) [
      | inl go ↦
          let same : x ≡ current = ground arith in
          rw (go, runs_from)
            (run_length_decode-runs_from current (count + 1) xs (ground arith)
              ∙ rw (same, add-one count) (replicate-suc_append count current xs))
      | inr stop ↦
          rw (stop, runs_from, mod-eq_of_lt h)
            (ap (◌++◌ (replicate count current)) (run_length_decode-runs_from x 1 xs (omega arith)))
    ]

-- Decoding undoes encoding, on any values.
pub run_length_decode-run_length_encode :
    (xs : List ℕ) → run_length_decode (run_length_encode xs) ≡ xs
unfolding run_length_encode run_length_decode
run_length_decode-run_length_encode [] = refl
run_length_decode-run_length_encode (x ∷ xs) = run_length_decode-runs_from x 1 xs (omega arith)

-- The first value of an encoding, if it has one, differs from `v`.
abbrev pub StartsOther : ℕ → List ℕ → Type 0
StartsOther v [] = Unit
StartsOther v (w ∷ rest) = w ≢ v

-- A canonical encoding: pairs of a byte and a count from 1 to 255, and two neighbours have one
-- value only if the first of them is full.
abbrev pub IsRuns : List ℕ → Type 0
IsRuns [] = Unit
IsRuns (v ∷ []) = ⊥
IsRuns (v ∷ c ∷ rest) =
    (v < 256) × (1 ≤ c) × (c ≤ 255) × (StartsOther v rest ⊎ (c ≡ 255)) × IsRuns rest

runs_from-head :
    (current count : ℕ) (xs : List ℕ) (v : ℕ)
    → current ≢ v
    → StartsOther v (runs_from current count xs)
unfolding runs_from
runs_from-head current count [] v h = h
runs_from-head current count (x ∷ xs) v h = elim (Bool-cases ((x == current) && ltb count 255)) [
  | inl go ↦ rw (go, runs_from) (runs_from-head current (count + 1) xs v h)
  | inr stop ↦ rw (stop, runs_from) h
]

short : {c : ℕ} → c ≤ 255 → c % 256 ≡ c
short h = omega arith

runs_from-IsRuns :
    (current count : ℕ) (xs : List ℕ)
    → current < 256
    → 1 ≤ count
    → count ≤ 255
    → AllBytes xs
    → IsRuns (runs_from current count xs)
unfolding runs_from
runs_from-IsRuns current count [] hv h1 h2 a = rw (short h2) (hv, h1, h2, inl tt, tt)
runs_from-IsRuns current count (x ∷ xs) hv h1 h2 a =
    elim (Bool-cases ((x == current) && ltb count 255)) [
      | inl go ↦
          rw (go, runs_from)
            (runs_from-IsRuns current (count + 1) xs hv (omega arith) (ground arith) a.1)
      | inr stop ↦
          let broken : (x ≢ current) ⊎ (count ≡ 255) = ground arith in
          rw (stop, runs_from, short h2)
            (
              hv,
              h1,
              h2,
              separated broken,
              runs_from-IsRuns x 1 xs a.0 (omega arith) (omega arith) a.1,
            )
    ]
  where
    separated :
        (x ≢ current) ⊎ (count ≡ 255) → StartsOther current (runs_from x 1 xs) ⊎ (count ≡ 255)
    separated (inl other) = inl (runs_from-head x 1 xs current other)
    separated (inr full) = inr full

-- The encoding of any bytes is canonical: no run is empty, none could take more, and every count
-- fits in its byte.
pub run_length_encode-IsRuns : (xs : List ℕ) → AllBytes xs → IsRuns (run_length_encode xs)
unfolding run_length_encode
run_length_encode-IsRuns [] a = tt
run_length_encode-IsRuns (x ∷ xs) a = runs_from-IsRuns x 1 xs a.0 (omega arith) (omega arith) a.1

length-runs_from :
    (current count : ℕ) (xs : List ℕ) → length (runs_from current count xs) ≤ 2 * length xs + 2
unfolding runs_from
length-runs_from current count [] = omega arith
length-runs_from current count (x ∷ xs) =
    ground (arith, length-runs_from current (count + 1) xs, length-runs_from x 1 xs)

-- At worst the encoding is twice as long as the data.
pub length-run_length_encode-le : (xs : List ℕ) → length (run_length_encode xs) ≤ 2 * length xs
unfolding run_length_encode
length-run_length_encode-le [] = omega arith
length-run_length_encode-le (x ∷ xs) = omega (arith, length-runs_from x 1 xs)
