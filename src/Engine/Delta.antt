-- ===== src/Engine/Delta.antt =====
-- `delta_encode` and `delta_decode` of `FPGACacheEngine` (src/fpga_engine/cache_engine.cpp). An
-- `int8_t` is its bit pattern, a number below 256: the differences and sums are computed in `int`
-- and cut to eight bits when they are stored.
use cxl_spec_kv.Common.{ℕ, ◌+◌, ◌-◌, ◌%◌, ◌<◌, ◌≡◌, refl, List, [], ◌∷◌, arith, length}

-- `data[i] - data[i - 1]` and `decoded[i - 1] + delta_data[i]`, stored in an `int8_t`.
abbrev pub sub8 : ℕ → ℕ → ℕ
sub8 a b = (a + 256 - b) % 256

abbrev pub add8 : ℕ → ℕ → ℕ
add8 a b = (a + b) % 256

-- The loop from the second element on; the first argument is `data[i - 1]`.
unfoldable pub deltas_from : ℕ → List ℕ → List ℕ
deltas_from last [] = []
deltas_from last (x ∷ xs) = sub8 x last ∷ deltas_from x xs

unfoldable pub delta_encode : List ℕ → List ℕ
unfolding deltas_from
delta_encode [] = []
delta_encode (x ∷ xs) = x ∷ deltas_from x xs

-- The loop of the decoder; the first argument is `decoded[i - 1]`.
unfoldable pub sums_from : ℕ → List ℕ → List ℕ
sums_from last [] = []
sums_from last (d ∷ ds) = add8 last d ∷ sums_from (add8 last d) ds

unfoldable pub delta_decode : List ℕ → List ℕ
unfolding sums_from
delta_decode [] = []
delta_decode (d ∷ ds) = d ∷ sums_from d ds

-- Every element is a byte.
abbrev pub AllBytes : List ℕ → Type 0
AllBytes [] = Unit
AllBytes (x ∷ xs) = (x < 256) × AllBytes xs

sums_from-deltas_from :
    (last : ℕ) (xs : List ℕ) → last < 256 → AllBytes xs → sums_from last (deltas_from last xs) ≡ xs
unfolding sums_from deltas_from
sums_from-deltas_from last [] h a = refl
sums_from-deltas_from last (x ∷ xs) h a =
    let back : add8 last (sub8 x last) ≡ x = omega arith in
    rw (back, sums_from-deltas_from x xs a.0 a.1) refl

deltas_from-sums_from :
    (last : ℕ) (ds : List ℕ) → last < 256 → AllBytes ds → deltas_from last (sums_from last ds) ≡ ds
unfolding sums_from deltas_from
deltas_from-sums_from last [] h a = refl
deltas_from-sums_from last (d ∷ ds) h a =
    let back : sub8 (add8 last d) last ≡ d = omega arith in
    rw (back, deltas_from-sums_from (add8 last d) ds (omega arith) a.1) refl

-- Decoding undoes encoding, on any bytes.
pub delta_decode-delta_encode : (xs : List ℕ) → AllBytes xs → delta_decode (delta_encode xs) ≡ xs
unfolding delta_decode delta_encode
delta_decode-delta_encode [] a = refl
delta_decode-delta_encode (x ∷ xs) a = rw (sums_from-deltas_from x xs a.0 a.1) refl

-- Encoding undoes decoding, on any bytes: the two are inverse bijections.
delta_encode-delta_decode : (ds : List ℕ) → AllBytes ds → delta_encode (delta_decode ds) ≡ ds
unfolding delta_decode delta_encode
delta_encode-delta_decode [] a = refl
delta_encode-delta_decode (d ∷ ds) a = rw (deltas_from-sums_from d ds a.0 a.1) refl

deltas_from-AllBytes : (last : ℕ) (xs : List ℕ) → AllBytes (deltas_from last xs)
unfolding deltas_from
deltas_from-AllBytes last [] = tt
deltas_from-AllBytes last (x ∷ xs) = (omega arith, deltas_from-AllBytes x xs)

pub delta_encode-AllBytes : (xs : List ℕ) → AllBytes xs → AllBytes (delta_encode xs)
unfolding delta_encode
delta_encode-AllBytes [] a = tt
delta_encode-AllBytes (x ∷ xs) a = (a.0, deltas_from-AllBytes x xs)

length-deltas_from : (last : ℕ) (xs : List ℕ) → length (deltas_from last xs) ≡ length xs
unfolding deltas_from
length-deltas_from last [] = refl
length-deltas_from last (x ∷ xs) = omega (arith, length-deltas_from x xs)

pub length-delta_encode : (xs : List ℕ) → length (delta_encode xs) ≡ length xs
unfolding delta_encode
length-delta_encode [] = refl
length-delta_encode (x ∷ xs) = omega (arith, length-deltas_from x xs)
