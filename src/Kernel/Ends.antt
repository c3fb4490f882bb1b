-- ===== src/Kernel/Ends.antt =====
-- Every thread leaves the handler (driver/speckv_kernel_module.c), whatever the others do.
use cxl_spec_kv.Common.{
  ℕ, zero, suc, Bool, ◌+◌, ◌-◌, ◌*◌, ◌≡◌, ◌≤◌, refl, false, List, [], ◌∷◌, Option, none, some,
  get_elem?, length, get_elem?-set_ne, ◌==◌, if◌then◌else◌, arith, Bool-cases, inl, inr, ◌∙◌, ap,
  ==_iff,
}
use cxl_spec_kv.Kernel.Types.{Kernel}
use cxl_spec_kv.Kernel.Handlers.{ring_full, Ioctl, dma_batch, prefetch, set_param, poll_done, other}
use cxl_spec_kv.Kernel.Threads.{
  Phase, arriving, checking, addressing, writing, telling, counting, sending, subtracting, clearing,
  ended, arrive, advance, field_writes, Machine, turn, play, turns,
}
use cxl_spec_kv.Kernel.Alone.{length-request_writes, turns-positive}
use cxl_spec_kv.Kernel.Serial.{enter, get_elem?-set_same}

-- The turns that a thread has left, at most.
unfoldable left : Phase → ℕ
left (checking descs) = length descs * 9 + 1
left (addressing next d rest) = length rest * 9 + 9
left (writing next ws rest) = length rest * 9 + 4 + length ws
left (telling rest) = length rest * 9 + 3
left (counting rest) = length rest * 9 + 2
left (arriving c) = turns c
left (sending ws) = length ws + 1
left (subtracting done) = 2
left clearing = 1
left ended = 0

arrive-left : (c : Ioctl) (mapped : Bool) → left (arrive c mapped) ≤ turns c - 1
unfolding arrive turns left
arrive-left (dma_batch none memory descs) m = omega arith
arrive-left (dma_batch (some batch) memory none) m = omega arith
arrive-left (dma_batch (some batch) memory (some descs)) m = ground arith
arrive-left (prefetch none memory tokens status) m = omega arith
arrive-left (prefetch (some req) memory none status) m = omega arith
arrive-left (prefetch (some req) memory (some tokens) status) m =
    ground (arith, length-request_writes req tokens)
arrive-left (set_param none) m = omega arith
arrive-left (set_param (some p)) m = ground arith
arrive-left (poll_done done copied) m = ground arith
arrive-left other m = omega arith

advance-left : (p : Phase) (k : Kernel) → left (advance p k).1 ≤ left p - 1
unfolding left advance field_writes
advance-left (checking []) k = omega arith
advance-left (checking (d ∷ rest)) k = elim (Bool-cases (ring_full k)) [
  | inl full ↦ rw (full, advance) (omega arith)
  | inr room ↦ rw (room, advance) (omega arith)
]
advance-left (addressing next d rest) k = omega arith
advance-left (writing next [] rest) k = omega arith
advance-left (writing next (w ∷ ws) rest) k = omega arith
advance-left (telling rest) k = omega arith
advance-left (counting rest) k = omega arith
advance-left (arriving c) k = arrive-left c k.mapped
advance-left (sending []) k = omega arith
advance-left (sending (w ∷ ws)) k = omega arith
advance-left (subtracting done) k = omega arith
advance-left clearing k = omega arith
advance-left ended k = omega arith

left-zero : (p : Phase) → left p ≤ 0 → p ≡ ended
unfolding left
left-zero (checking descs) h = absurd (omega arith)
left-zero (addressing next d rest) h = absurd (omega arith)
left-zero (writing next ws rest) h = absurd (omega arith)
left-zero (telling rest) h = absurd (omega arith)
left-zero (counting rest) h = absurd (omega arith)
left-zero (arriving c) h = absurd (omega (arith, turns-positive c, h))
left-zero (sending ws) h = absurd (omega arith)
left-zero (subtracting done) h = absurd (omega arith)
left-zero clearing h = absurd (omega arith)
left-zero ended h = refl

-- The turns of a thread in a schedule.
unfoldable pub count : ℕ → List ℕ → ℕ
count i [] = 0
count i (j ∷ schedule) = if j == i then suc (count i schedule) else count i schedule

turn-own :
    (i : ℕ) (s : Machine) (p : Phase)
    → get_elem? s.threads i ≡ some p
    → get_elem? (turn i s).threads i ≡ some (advance p s.kernel).1
unfolding turn
turn-own i s p e = rw (e, turn) (get_elem?-set_same s.threads i p (advance p s.kernel).1 e)

turn-other :
    (i j : ℕ) (s : Machine) (found : Option Phase)
    → (j == i) ≡ false
    → get_elem? s.threads j ≡ found
    → get_elem? (turn j s).threads i ≡ get_elem? s.threads i
unfolding turn
turn-other i j s none apart e = rw (e, turn) refl
turn-other i j s (some p) apart e =
    rw (e, turn)
      (get_elem?-set_ne s.threads (advance p s.kernel).1 (λ same. ground (arith, same, apart)))

play-ends_from :
    (schedule : List ℕ) (i : ℕ) (s : Machine) (p : Phase)
    → get_elem? s.threads i ≡ some p
    → left p ≤ count i schedule
    → get_elem? (play schedule s).threads i ≡ some ended
unfolding play count
play-ends_from [] i s p e enough = e ∙ ap some (left-zero p enough)
play-ends_from (j ∷ schedule) i s p e enough = elim (Bool-cases (j == i)) [
  | inl own ↦
      let same : j ≡ i = (==_iff j i).0 own in
      let fewer = advance-left p s.kernel in
      play-ends_from schedule i (turn j s) (advance p s.kernel).1 (rw same (turn-own i s p e))
        (ground (arith, fewer, enough, own))
  | inr apart ↦
      play-ends_from schedule i (turn j s) p
        (turn-other i j s (get_elem? s.threads j) apart refl ∙ e) (ground (arith, enough, apart))
]

get_elem?-enter :
    (calls : List Ioctl) (i : ℕ) (c : Ioctl)
    → get_elem? calls i ≡ some c
    → get_elem? (enter calls) i ≡ some (arriving c)
get_elem?-enter [] i c e = absurd (cc)
get_elem?-enter (b ∷ calls) zero c e = ap some (ap arriving (ground arith))
get_elem?-enter (b ∷ calls) (suc i) c e = get_elem?-enter calls i c e

-- Among any number of threads that each make an ioctl, a thread that gets the turns of its ioctl has
-- left the handler, whatever turns the others take between them. The turns are nine for each copied
-- descriptor of a batch and two more, one for each copied token of a prefetch request and eight
-- more, and three for the other ioctls, or if that copy fails.
pub play-ended :
    (schedule : List ℕ) (calls : List Ioctl) (k : Kernel) (i : ℕ) (c : Ioctl)
    → get_elem? calls i ≡ some c
    → turns c ≤ count i schedule
    → get_elem? (play schedule (record { kernel = k; threads = enter calls })).threads i
      ≡ some ended
unfolding left
play-ended schedule calls k i c e enough =
    play-ends_from schedule i (record { kernel = k; threads = enter calls }) (arriving c)
      (get_elem?-enter calls i c e) enough
