-- ===== src/Coherence/Protocol.antt =====
-- What the lines of a `CoherenceManager` can be, after any history.
use cxl_spec_kv.Common.{
  ℕ, Bool, true, false, List, [], ◌∷◌, ◌≡◌, ◌≢◌, refl, arith, inl, inr, Bool-cases, ◌&&◌, ◌∙◌,
  subst,
}
use cxl_spec_kv.Common.Assoc.{lookup}
use cxl_spec_kv.Coherence.Types.{invalid, exclusive, modified, CoherenceManager}
use cxl_spec_kv.Coherence.Directory.{create, get_entry, is_cached, is_modified_state}
use cxl_spec_kv.Coherence.Lines.{
  Line, line_at, Action, reads, writes, invalidates, writes_back, flushes, promotes, demotes, moves,
  next,
}
use cxl_spec_kv.Coherence.Tiers.{is_l3}
use cxl_spec_kv.Coherence.Calls.{Call, step, run, affects, action, line_step}
use cxl_spec_kv.Coherence.Shape.{step-SameShape}
use cxl_spec_kv.Coherence.Histories.{line_at-step}

-- No line is exclusive, and without a driver none is cached.
pub record IsLegal (driver : Bool) (x : Line) : Type 0 where
  pub never_exclusive : x.state ≢ exclusive
  pub needs_driver : driver ≡ false → x.state ≡ invalid

next-IsLegal : (d : Bool) (a : Action) (x : Line) → IsLegal d x → IsLegal d (next d a x)
unfolding next is_cached is_modified_state is_l3
next-IsLegal d reads x v = ground (arith, v.needs_driver)
next-IsLegal d writes x v = ground (arith, v.needs_driver)
next-IsLegal d invalidates x v = ground (arith, v.needs_driver)
next-IsLegal d writes_back x v = ground (arith, v.needs_driver)
next-IsLegal d flushes x v = ground (arith, v.needs_driver)
next-IsLegal d promotes x v = ground (arith, v.needs_driver)
next-IsLegal d demotes x v = ground (arith, v.needs_driver)
next-IsLegal d (moves t) x v = ground (arith, v.needs_driver)

line_step_cases :
    (P : Line → Type 0) (m : CoherenceManager) (c : Call) (lines : ℕ → Line) (line : ℕ)
    → P (next m.driver (action c) (lines line))
    → P (lines line)
    → P (line_step m c lines line)
unfolding line_step
line_step_cases P m c lines line moved kept = elim (Bool-cases (affects m c line)) [
  | inl e ↦ rw e moved
  | inr e ↦ rw e kept
]

abbrev AllLegal : CoherenceManager → Type 0
AllLegal m = (line : ℕ) → IsLegal m.driver (line_at m line)

step-AllLegal : (now : ℕ) (c : Call) (m : CoherenceManager) → AllLegal m → AllLegal (step now c m).0
step-AllLegal now c m v line =
    rw (line_at-step now c m line, (step-SameShape now c m).driver_same)
      (line_step_cases (IsLegal m.driver) m c (line_at m) line
        (next-IsLegal m.driver (action c) (line_at m line) (v line)) (v line))

run-AllLegal : (cs : List (ℕ × Call)) (m : CoherenceManager) → AllLegal m → AllLegal (run cs m)
unfolding run
run-AllLegal [] m v = v
run-AllLegal ((now, c) ∷ cs) m v = run-AllLegal cs (step now c m).0 (step-AllLegal now c m v)

create-AllLegal : (driver : Bool) (size : ℕ) → AllLegal (create driver size)
unfolding create line_at get_entry lookup
create-AllLegal driver size line = ground arith

run-driver : (cs : List (ℕ × Call)) (m : CoherenceManager) → (run cs m).driver ≡ m.driver
unfolding run
run-driver [] m = refl
run-driver ((now, c) ∷ cs) m = run-driver cs (step now c m).0 ∙ (step-SameShape now c m).driver_same

-- After any history of calls on a new manager, no line is in the state EXCLUSIVE, and if the
-- manager has no driver every line is INVALID.
pub run-create-IsLegal :
    (driver : Bool) (size : ℕ) (cs : List (ℕ × Call)) (line : ℕ)
    → IsLegal driver (line_at (run cs (create driver size)) line)
unfolding create
run-create-IsLegal driver size cs line =
    let m = create driver size in
    subst (λ d. IsLegal d (line_at (run cs m) line)) (run-driver cs m)
      (run-AllLegal cs m (create-AllLegal driver size) line)

-- The actions that may write a modified line back or throw it away.
abbrev pub cleans : Action → Bool
cleans invalidates = true
cleans writes_back = true
cleans flushes = true
cleans demotes = true
cleans _ = false

next-keeps_modified :
    (d : Bool) (a : Action) (x : Line)
    → cleans a ≡ false
    → x.state ≡ modified
    → (next d a x).state ≡ modified
unfolding next is_cached
next-keeps_modified d reads x h e = ground arith
next-keeps_modified d writes x h e = ground arith
next-keeps_modified d invalidates x h e = cc
next-keeps_modified d writes_back x h e = cc
next-keeps_modified d flushes x h e = cc
next-keeps_modified d promotes x h e = ground arith
next-keeps_modified d demotes x h e = cc
next-keeps_modified d (moves t) x h e = e

-- A modified line stays modified in every call but an invalidation, a writeback, a flush or a
-- demotion of that line.
pub step-keeps_modified :
    (now : ℕ) (c : Call) (m : CoherenceManager) (line : ℕ)
    → (line_at m line).state ≡ modified
    → (affects m c line && cleans (action c)) ≡ false
    → (line_at (step now c m).0 line).state ≡ modified
unfolding line_step
step-keeps_modified now c m line e h =
    rw (line_at-step now c m line)
      (ground (arith, next-keeps_modified m.driver (action c) (line_at m line)))
