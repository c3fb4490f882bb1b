-- ===== src/Kernel/Serial.antt =====
-- Ioctls of several threads one after the other (driver/speckv_kernel_module.c): the same as the
-- calls in their order.
use cxl_spec_kv.Common.{
  ℕ, zero, suc, ◌+◌, ◌≡◌, refl, List, [], ◌∷◌, ◌++◌, some, get_elem?, set, length, length-append,
  replicate, arith, ◌∙◌, ap,
}
use mathlib.Core.List.{append_assoc}
use cxl_spec_kv.Kernel.Types.{Kernel}
use cxl_spec_kv.Kernel.Handlers.{Ioctl, speckv_ioctl, run}
use cxl_spec_kv.Kernel.Threads.{
  Phase, arriving, ended, advance, advance_all, Machine, turn, play, turns,
}
use cxl_spec_kv.Kernel.Alone.{advance_all-speckv_ioctl}

module _ {ℓ} {A : Type ℓ} where
  pub set-get : (xs : List A) (i : ℕ) (x : A) → get_elem? xs i ≡ some x → set xs i x ≡ xs
  set-get [] i x e = refl
  set-get (y ∷ xs) zero x e = ground arith
  set-get (y ∷ xs) (suc i) x e = ap (λ (ys : List A). y ∷ ys) (set-get xs i x e)

  set-set : (xs : List A) (i : ℕ) (x y : A) → set (set xs i x) i y ≡ set xs i y
  set-set [] i x y = refl
  set-set (z ∷ xs) zero x y = refl
  set-set (z ∷ xs) (suc i) x y = ap (λ (ys : List A). z ∷ ys) (set-set xs i x y)

  pub get_elem?-set_same :
      (xs : List A) (i : ℕ) (x y : A) → get_elem? xs i ≡ some x → get_elem? (set xs i y) i ≡ some y
  get_elem?-set_same [] i x y e = absurd (cc)
  get_elem?-set_same (z ∷ xs) zero x y e = refl
  get_elem?-set_same (z ∷ xs) (suc i) x y e = get_elem?-set_same xs i x y e

  get_elem?-length :
      (xs : List A) (x : A) (ys : List A) → get_elem? (xs ++ x ∷ ys) (length xs) ≡ some x
  get_elem?-length [] x ys = refl
  get_elem?-length (z ∷ xs) x ys = get_elem?-length xs x ys

  set-length :
      (xs : List A) (x y : A) (ys : List A)
      → set (xs ++ x ∷ ys) (length xs) y ≡ (xs ++ y ∷ []) ++ ys
  set-length [] x y ys = refl
  set-length (z ∷ xs) x y ys = ap (λ (zs : List A). z ∷ zs) (set-length xs x y ys)

abbrev machine : Kernel × Phase → List Phase → ℕ → Machine
machine (k, p) threads i = record { kernel = k; threads = set threads i p }

turn-some :
    (i : ℕ) (p : Phase) (k : Kernel) (threads : List Phase)
    → get_elem? threads i ≡ some p
    → turn i (record { kernel = k; threads = threads }) ≡ machine (advance p k) threads i
unfolding turn
turn-some i p k threads e = rw (e, turn) refl

-- A thread that takes several turns in a row.
play-replicate :
    (n i : ℕ) (rest : List ℕ) (p : Phase) (k : Kernel) (threads : List Phase)
    → get_elem? threads i ≡ some p
    → play (replicate n i ++ rest) (record { kernel = k; threads = threads })
      ≡ play rest (machine (advance_all n p k) threads i)
unfolding play advance_all
play-replicate zero i rest p k threads e = rw (set-get threads i p e) refl
play-replicate (suc n) i rest p k threads e =
    let (after, next) = advance p k in
    ap (play (replicate n i ++ rest)) (turn-some i p k threads e)
    ∙ (play-replicate n i rest next after (set threads i next)
          (get_elem?-set_same threads i p next e)
        ∙ rw (set-set threads i next (advance_all n next after).1) refl)

-- Each thread takes all its turns, the next one after it.
unfoldable pub serial : ℕ → List Ioctl → List ℕ
serial i [] = []
serial i (c ∷ calls) = replicate (turns c) i ++ serial (i + 1) calls

-- The threads that enter the handler, one for each ioctl.
abbrev pub enter : List Ioctl → List Phase
enter [] = []
enter (c ∷ calls) = arriving c ∷ enter calls

abbrev pub all_ended : List Ioctl → List Phase
all_ended [] = []
all_ended (c ∷ calls) = ended ∷ all_ended calls

serial-run :
    (calls : List Ioctl) (done : List Phase) (i : ℕ) (k : Kernel)
    → i ≡ length done
    → play (serial i calls) (record { kernel = k; threads = done ++ enter calls })
      ≡ record { kernel = run calls k; threads = done ++ all_ended calls }
unfolding play serial run
serial-run [] done i k e = refl
serial-run (c ∷ calls) done i k e =
    let threads = done ++ arriving c ∷ enter calls in
    let found : get_elem? threads i ≡ some (arriving c) =
      rw e (get_elem?-length done (arriving c) (enter calls)) in
    let moved : set threads i ended ≡ (done ++ ended ∷ []) ++ enter calls =
      rw e (set-length done (arriving c) ended (enter calls)) in
    let rest =
      serial-run calls (done ++ ended ∷ []) (i + 1) (speckv_ioctl c k).0
        (omega (arith, e, length-append done (ended ∷ []))) in
    let alone = advance_all-speckv_ioctl c (turns c) k (omega arith) in
    rw
      (play-replicate (turns c) i (serial (i + 1) calls) (arriving c) k threads found, alone, moved)
      (rest ∙ rw (append_assoc done (ended ∷ []) (all_ended calls)) refl)

-- Any number of threads that each make an ioctl, one of which takes all its turns before the next
-- begins: the module is left as by the calls in that order, and every thread has left the handler.
pub play-serial :
    (calls : List Ioctl) (k : Kernel)
    → play (serial 0 calls) (record { kernel = k; threads = enter calls })
      ≡ record { kernel = run calls k; threads = all_ended calls }
play-serial calls k = serial-run calls [] 0 k refl
