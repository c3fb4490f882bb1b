-- ===== src/Prefetch/Window.antt =====
-- A sequence that drops its oldest element when it outgrows a bound, as the prefetcher keeps its
-- queue and its history (src/prefetcher/speculative_prefetcher.cpp).
use cxl_spec_kv.Common.{
  ℕ, zero, suc, ◌-◌, ◌≤◌, ◌≡◌, refl, true, List, [], ◌∷◌, ◌++◌, length, drop, ltb, if◌then◌else◌,
  arith, ◌∙◌, sym, ap, Bool-cases, inl, inr, length-append, length-drop,
}

module _ {ℓ} {A : Type ℓ} where
  -- A push at the end, and a removal at the front if there are more than `bound`.
  unfoldable pub push_bounded : ℕ → List A → A → List A
  push_bounded bound xs x =
      let pushed = xs ++ x ∷ [] in if ltb bound (length pushed) then drop 1 pushed else pushed

  -- The last `n` elements.
  unfoldable pub last : ℕ → List A → List A
  last n xs = drop (length xs - n) xs

  drop-append : (d : ℕ) (xs ys : List A) → d ≤ length xs → drop d (xs ++ ys) ≡ drop d xs ++ ys
  drop-append zero xs ys h = refl
  drop-append (suc d) [] ys h = absurd (omega arith)
  drop-append (suc d) (x ∷ xs) ys h = drop-append d xs ys (omega arith)

  drop-drop_one : (d : ℕ) (xs : List A) → drop 1 (drop d xs) ≡ drop (suc d) xs
  drop-drop_one zero xs = refl
  drop-drop_one (suc d) [] = refl
  drop-drop_one (suc d) (x ∷ xs) = drop-drop_one d xs

  pub last_all : (n : ℕ) (xs : List A) → length xs ≤ n → last n xs ≡ xs
  unfolding last
  last_all n xs h = let none_dropped : length xs - n ≡ 0 = omega arith in rw none_dropped refl

  pub length-last : (n : ℕ) (xs : List A) → length (last n xs) ≤ n
  unfolding last
  length-last n xs = omega (arith, length-drop (length xs - n) xs)

  push_bounded-last_full :
      (n : ℕ) (xs : List A) (x : A)
      → n ≤ length xs
      → push_bounded n (last n xs) x ≡ last n (xs ++ x ∷ [])
  unfolding push_bounded last
  push_bounded-last_full n xs x h =
      let d = length xs - n in
      let size = length-append xs (x ∷ []) in
      let kept = length-append (drop d xs) (x ∷ []) in
      let rest = length-drop d xs in
      let over : ltb n (length (drop d xs ++ x ∷ [])) ≡ true = grind arith in
      let skip : length (xs ++ x ∷ []) - n ≡ suc d = omega arith in
      rw (over, skip)
        (sym (ap (drop 1) (drop-append d xs (x ∷ []) (omega arith)))
          ∙ drop-drop_one d (xs ++ x ∷ []))

  pub push_bounded-last :
      (n : ℕ) (xs : List A) (x : A) → push_bounded n (last n xs) x ≡ last n (xs ++ x ∷ [])
  unfolding push_bounded
  push_bounded-last n xs x = elim (Bool-cases (ltb (length xs) n)) [
    | inl short ↦
        let size = length-append xs (x ∷ []) in
        rw (last_all n xs (grind arith), last_all n (xs ++ x ∷ []) (grind arith)) (grind arith)
    | inr long ↦ push_bounded-last_full n xs x (grind arith)
  ]

  -- Pushes one after the other keep the last elements of everything there was.
  unfoldable pub push_all : ℕ → List A → List A → List A
  unfolding push_bounded
  push_all n xs [] = xs
  push_all n xs (y ∷ ys) = push_all n (push_bounded n xs y) ys

  pub append_one : (xs ys : List A) (y : A) → (xs ++ y ∷ []) ++ ys ≡ xs ++ y ∷ ys
  append_one [] ys y = refl
  append_one (x ∷ xs) ys y = ap (◌∷◌ x) (append_one xs ys y)

  append_nil : (xs : List A) → xs ++ [] ≡ xs
  append_nil [] = refl
  append_nil (x ∷ xs) = ap (◌∷◌ x) (append_nil xs)

  pub push_all-last : (n : ℕ) (xs ys : List A) → push_all n (last n xs) ys ≡ last n (xs ++ ys)
  unfolding push_all
  push_all-last n xs [] = rw (append_nil xs) refl
  push_all-last n xs (y ∷ ys) =
      rw (push_bounded-last n xs y)
        (push_all-last n (xs ++ y ∷ []) ys ∙ ap (last n) (append_one xs ys y))

  drop-length : (xs : List A) → drop (length xs) xs ≡ []
  drop-length [] = refl
  drop-length (x ∷ xs) = drop-length xs

  last_none : (xs : List A) → last 0 xs ≡ []
  unfolding last
  last_none xs = let all : length xs - 0 ≡ length xs = omega arith in rw all (drop-length xs)

  pub last-append :
      (n : ℕ) (xs ys : List A) → length ys ≤ n → last n (xs ++ ys) ≡ last (n - length ys) xs ++ ys
  unfolding last
  last-append n xs ys h =
      let size = length-append xs ys in
      let skip : length (xs ++ ys) - n ≡ length xs - (n - length ys) = omega arith in
      rw (skip) (drop-append (length xs - (n - length ys)) xs ys (omega arith))

  -- Exactly what was appended, if that is the number of elements asked for.
  pub last-append_self : (xs ys : List A) → last (length ys) (xs ++ ys) ≡ ys
  last-append_self xs ys =
      let none_left : length ys - length ys ≡ 0 = omega arith in
      last-append (length ys) xs ys (omega arith) ∙ rw (none_left, last_none xs) refl
