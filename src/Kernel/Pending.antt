-- ===== src/Kernel/Pending.antt =====
-- The count of pending descriptors (driver/speckv_kernel_module.c, `dma_pending`), which is atomic,
-- under ioctls of several threads.
use cxl_spec_kv.Common.{
  ℕ, zero, suc, ◌+◌, ◌-◌, ◌%◌, ◌≡◌, ◌<◌, refl, true, List, [], ◌∷◌, Option, none, some, get_elem?,
  set, arith, Bool-cases, inl, inr, ap,
}
use cxl_spec_kv.Common.Words.{u32_mod}
use cxl_spec_kv.Common.Tables.{Every, Every-set, Every-get}
use cxl_spec_kv.Kernel.Types.{Kernel, write_all, iowrite32, reg_dma_ring_wr, reg_dma_complete}
use cxl_spec_kv.Kernel.Handlers.{ring_full, Ioctl, dma_batch, prefetch, set_param, poll_done, other}
use cxl_spec_kv.Kernel.Serial.{enter, all_ended, set-get}
use cxl_spec_kv.Kernel.Threads.{
  Phase, arriving, checking, addressing, writing, telling, counting, sending, subtracting, clearing,
  ended, arrive, advance, Machine, turn, play,
}
use cxl_spec_kv.Kernel.Told.{told, told-append, told-request_writes, told-field_writes}

-- The completions that an ioctl reads.
abbrev pub completions : Ioctl → ℕ
completions (poll_done done copied) = done
completions _ = 0

abbrev pub all_completions : List Ioctl → ℕ
all_completions [] = 0
all_completions (c ∷ calls) = completions c + all_completions calls

-- What a register reads is a 32-bit word.
abbrev pub IsWord : Ioctl → Type 0
IsWord c = completions c < u32_mod

-- The completions that a thread has read, or will, and has not taken off.
abbrev owed : Phase → ℕ
owed (arriving c) = completions c
owed (subtracting done) = done
owed _ = 0

-- Whether a thread has told the write pointer and has not counted the descriptor.
abbrev uncounted : Phase → ℕ
uncounted (counting rest) = 1
uncounted _ = 0

-- No write of the write pointer is left, and what was read is a 32-bit word.
abbrev Quiet : Phase → Type 0
Quiet (arriving c) = IsWord c
Quiet (subtracting done) = done < u32_mod
Quiet (writing next ws rest) = told ws ≡ 0
Quiet (sending ws) = told ws ≡ 0
Quiet _ = Unit

-- An ioctl at its start gives a quiet phase that owes as much.
arrive-Quiet :
    (c : Ioctl)
    → Quiet (arriving c)
    → Quiet (arrive c true)
      × (owed (arrive c true) ≡ owed (arriving c))
      × (uncounted (arrive c true) ≡ 0)
unfolding arrive told
arrive-Quiet (dma_batch none memory descs) q = (tt, refl, refl)
arrive-Quiet (dma_batch (some batch) memory none) q = (tt, refl, refl)
arrive-Quiet (dma_batch (some batch) memory (some descs)) q = ground arith
arrive-Quiet (prefetch none memory tokens status) q = (tt, refl, refl)
arrive-Quiet (prefetch (some req) memory none status) q = (tt, refl, refl)
arrive-Quiet (prefetch (some req) memory (some tokens) status) q =
    ground (arith, told-request_writes req tokens)
arrive-Quiet (set_param none) q = (tt, refl, refl)
arrive-Quiet (set_param (some p)) q = ground arith
arrive-Quiet (poll_done done copied) q = ground arith
arrive-Quiet other q = (tt, refl, refl)

-- The count, with `u` descriptors that other threads have not counted and `a`, against what the
-- write pointer was told, with the `o` completions that other threads owe and `b`.
abbrev Even : ℕ → ℕ → ℕ → ℕ → Kernel → Phase → Type 0
Even u o a b k p =
    (k.dma_pending + (u + uncounted p) + a) % u32_mod ≡ (told k.writes + (o + owed p) + b) % u32_mod

abbrev Kept : ℕ → ℕ → ℕ → ℕ → Kernel × Phase → Type 0
Kept u o a b (k, p) = (k.mapped ≡ true) × Quiet p × Even u o a b k p

taken-Even :
    (n done u a x o b : ℕ)
    → done < u32_mod
    → (n + (u + 0) + a) % u32_mod ≡ (x + (o + done) + b) % u32_mod
    → ((n + u32_mod - done) % u32_mod + (u + 0) + a) % u32_mod ≡ (x + (o + 0) + b) % u32_mod
taken-Even n done u a x o b h e = omega arith

advance-Kept :
    (p : Phase) (k : Kernel) (u o a b : ℕ)
    → k.mapped ≡ true
    → Quiet p
    → Even u o a b k p
    → Kept u o a b (advance p k)
unfolding advance told write_all
advance-Kept (arriving c) k u o a b m q e =
    let (quiet, owes, counts) = arrive-Quiet c q in
    rw m (refl, quiet, omega (arith, e, owes, counts))
advance-Kept (checking []) k u o a b m q e = (m, tt, e)
advance-Kept (checking (d ∷ rest)) k u o a b m q e = elim (Bool-cases (ring_full k)) [
  | inl full ↦ rw (full, advance) (m, tt, e)
  | inr room ↦ rw (room, advance) (m, tt, e)
]
advance-Kept (addressing next d rest) k u o a b m q e =
    (m, told-field_writes k.dma_ring_wr_ptr d, e)
advance-Kept (writing next [] rest) k u o a b m q e = (m, tt, e)
advance-Kept (writing next (w ∷ ws) rest) k u o a b m q e =
    (m, ground (arith, q), ground (arith, q, e, told-append k.writes (w ∷ [])))
advance-Kept (telling rest) k u o a b m q e =
    let w = iowrite32 k.dma_ring_wr_ptr reg_dma_ring_wr in
    (m, tt, omega (arith, e, told-append k.writes (w ∷ [])))
advance-Kept (counting rest) k u o a b m q e = (m, tt, omega (arith, e))
advance-Kept (sending []) k u o a b m q e = (m, tt, e)
advance-Kept (sending (w ∷ ws)) k u o a b m q e =
    (m, ground (arith, q), ground (arith, q, e, told-append k.writes (w ∷ [])))
advance-Kept (subtracting done) k u o a b m q e =
    (m, tt, taken-Even k.dma_pending done u a (told k.writes) o b q e)
advance-Kept clearing k u o a b m q e =
    (m, tt, omega (arith, e, told-append k.writes (iowrite32 0 reg_dma_complete ∷ [])))
advance-Kept ended k u o a b m q e = (m, tt, e)

unfoldable total : (Phase → ℕ) → List Phase → ℕ
total f [] = 0
total f (p ∷ threads) = f p + total f threads

total-set :
    (f : Phase → ℕ) (threads : List Phase) (i : ℕ) (p q : Phase)
    → f ended ≡ 0
    → get_elem? threads i ≡ some p
    → total f (set threads i q) ≡ total f (set threads i ended) + f q
unfolding total
total-set f [] i p q z e = absurd (cc)
total-set f (r ∷ threads) zero p q z e = omega (arith, z)
total-set f (r ∷ threads) (suc i) p q z e = omega (arith, total-set f threads i p q z e)

abbrev Steady : ℕ → ℕ → Machine → Type 0
Steady a b s =
    (s.kernel.mapped ≡ true)
    × Every Quiet s.threads
    × ((s.kernel.dma_pending + total uncounted s.threads + a) % u32_mod
        ≡ (told s.kernel.writes + total owed s.threads + b) % u32_mod)

turn-found :
    (i : ℕ) (s : Machine) (found : Option Phase) (a b : ℕ)
    → get_elem? s.threads i ≡ found
    → Steady a b s
    → Steady a b (turn i s)
unfolding turn
turn-found i s none a b e h = rw (e, turn) h
turn-found i s (some p) a b e (m, quiet, same) =
    let before = set-get s.threads i p e in
    let next = (advance p s.kernel).1 in
    let u = total uncounted (set s.threads i ended) in
    let o = total owed (set s.threads i ended) in
    let (mapped, still, even) =
      advance-Kept p s.kernel u o a b m (Every-get Quiet s.threads i p e quiet) (
        omega (
          arith,
          same,
          total-set uncounted s.threads i p p refl e,
          total-set owed s.threads i p p refl e,
          ap (total uncounted) before,
          ap (total owed) before,
        )) in
    rw (e, turn)
      (
        mapped,
        Every-set Quiet s.threads i next still quiet,
        omega (
          arith,
          even,
          total-set uncounted s.threads i p next refl e,
          total-set owed s.threads i p next refl e,
        ),
      )

play-Steady :
    (schedule : List ℕ) (s : Machine) (a b : ℕ) → Steady a b s → Steady a b (play schedule s)
unfolding play
play-Steady [] s a b h = h
play-Steady (i ∷ schedule) s a b h =
    play-Steady schedule (turn i s) a b (turn-found i s (get_elem? s.threads i) a b refl h)

enter-Steady :
    (calls : List Ioctl)
    → Every IsWord calls
    → Every Quiet (enter calls)
      × (total owed (enter calls) ≡ all_completions calls)
      × (total uncounted (enter calls) ≡ 0)
unfolding total
enter-Steady [] h = (tt, refl, refl)
enter-Steady (c ∷ calls) h =
    let (quiet, owes, counts) = enter-Steady calls h.1 in
    ((h.0, quiet), ap (λ (n : ℕ). completions c + n) owes, omega (arith, counts))

total-all_ended : (f : Phase → ℕ) (calls : List Ioctl) → f ended ≡ 0 → total f (all_ended calls) ≡ 0
unfolding total
total-all_ended f [] z = refl
total-all_ended f (c ∷ calls) z = omega (arith, z, total-all_ended f calls z)

-- On a mapped region, when any number of threads have each made an ioctl and left the handler,
-- whatever the order of their turns was, the count of pending descriptors has grown by one for each
-- 32-bit write to the register of the write pointer, and shrunk by the completions that were read,
-- each a 32-bit word, modulo 2^32.
pub play-dma_pending :
    (schedule : List ℕ) (calls : List Ioctl) (k : Kernel)
    → k.mapped ≡ true
    → Every IsWord calls
    → (play schedule (record { kernel = k; threads = enter calls })).threads ≡ all_ended calls
    → let after = (play schedule (record { kernel = k; threads = enter calls })).kernel in
      (after.dma_pending + all_completions calls + told k.writes) % u32_mod
      ≡ (k.dma_pending + told after.writes) % u32_mod
play-dma_pending schedule calls k m words all_left =
    let (quiet, owes, counts) = enter-Steady calls words in
    let start : Machine = record { kernel = k; threads = enter calls } in
    let (mapped, still, even) =
      play-Steady schedule start (told k.writes + all_completions calls) k.dma_pending
        (m, quiet, omega (arith, owes, counts)) in
    omega (
      arith,
      even,
      ap (total uncounted) all_left,
      ap (total owed) all_left,
      total-all_ended uncounted calls refl,
      total-all_ended owed calls refl,
    )
