-- ===== src/Coherence/ApiHistories.antt =====
-- Sequences of calls through the C interface of `CoherenceManager`
-- (src/cxl_memory/coherence_c_api.cpp), and the calls of the manager that they come to.
use cxl_spec_kv.Common.{
  ℕ, ◌≡◌, refl, Bool, true, false, List, [], ◌∷◌, Option, none, some, ap, ◌∙◌, arith,
}
use mathlib.Core.Option
use cxl_spec_kv.Coherence.Types.{CoherenceManager}
use cxl_spec_kv.Coherence.Calls.{
  Call, fetch, store, drop, save, promote, demote, drop_all, flush, reset, step, run, line_run,
}
use cxl_spec_kv.Coherence.Lines.{line_at, Line}
use cxl_spec_kv.Common.Assoc.{lookup}
use cxl_spec_kv.Coherence.Directory.{create, get_entry}
use cxl_spec_kv.Coherence.Tiers.{get_state, get_tier}
use cxl_spec_kv.Coherence.Histories.{line_at-run}
use cxl_spec_kv.Coherence.Api.{
  Handle, with_manager, coherence_manager_create, coherence_manager_get_state,
  coherence_manager_get_tier, coherence_manager_get_statistics, coherence_manager_request_read,
  coherence_manager_request_write, coherence_manager_invalidate, coherence_manager_writeback,
  coherence_manager_flush_all, coherence_manager_promote_to_l1, coherence_manager_demote_to_l3,
  coherence_manager_batch_invalidate, coherence_manager_reset_statistics,
}

-- One constructor for each function that may change the manager; a `Bool` says that the pointer to
-- data is not null.
pub data ApiCall : Type 0 where
  request_read request_write writeback : ℕ → Bool → ApiCall
  invalidate promote_to_l1 demote_to_l3 : ℕ → ApiCall
  batch_invalidate : Option (List ℕ) → ApiCall
  flush_all reset_statistics : ApiCall

unfoldable pub api_step : ℕ → ApiCall → Handle → Handle × Bool
api_step now (request_read addr data_out) h = coherence_manager_request_read now h addr data_out
api_step now (request_write addr data_in) h = coherence_manager_request_write now h addr data_in
api_step now (writeback addr data_in) h = coherence_manager_writeback h addr data_in
api_step now (invalidate addr) h = coherence_manager_invalidate h addr
api_step now (promote_to_l1 addr) h = coherence_manager_promote_to_l1 h addr
api_step now (demote_to_l3 addr) h = coherence_manager_demote_to_l3 h addr
api_step now (batch_invalidate addrs) h = coherence_manager_batch_invalidate h addrs
api_step now flush_all h = coherence_manager_flush_all h
api_step now reset_statistics h = (coherence_manager_reset_statistics h, true)

unfoldable pub api_run : List (ℕ × ApiCall) → Handle → Handle
api_run [] h = h
api_run ((now, c) ∷ calls) h = api_run calls (api_step now c h).0

-- The call of the manager that a call comes to, if any.
unfoldable pub accepted : ApiCall → Option Call
accepted (request_read addr true) = some (fetch addr)
accepted (request_write addr true) = some (store addr)
accepted (writeback addr true) = some (save addr)
accepted (invalidate addr) = some (drop addr)
accepted (promote_to_l1 addr) = some (promote addr)
accepted (demote_to_l3 addr) = some (demote addr)
accepted (batch_invalidate (some addrs)) = some (drop_all addrs)
accepted flush_all = some flush
accepted reset_statistics = some reset
accepted _ = none

-- A call in front of others, if it comes to one.
unfoldable pub put_first : ℕ → Option Call → List (ℕ × Call) → List (ℕ × Call)
put_first now none calls = calls
put_first now (some c) calls = (now, c) ∷ calls

unfoldable pub all_accepted : List (ℕ × ApiCall) → List (ℕ × Call)
all_accepted [] = []
all_accepted ((now, c) ∷ calls) = put_first now (accepted c) (all_accepted calls)

-- What a call comes to for a manager.
came_to : ℕ → Option Call → CoherenceManager → CoherenceManager
came_to now none m = m
came_to now (some c) m = (step now c m).0

api_step-accepted :
    (now : ℕ) (c : ApiCall) (m : CoherenceManager)
    → (api_step now c (some m)).0 ≡ some (came_to now (accepted c) m)
unfolding api_step accepted came_to step coherence_manager_request_read
    coherence_manager_request_write coherence_manager_invalidate coherence_manager_writeback
    coherence_manager_flush_all coherence_manager_promote_to_l1 coherence_manager_demote_to_l3
    coherence_manager_batch_invalidate coherence_manager_reset_statistics
api_step-accepted now (request_read addr true) m = refl
api_step-accepted now (request_read addr false) m = refl
api_step-accepted now (request_write addr true) m = refl
api_step-accepted now (request_write addr false) m = refl
api_step-accepted now (writeback addr true) m = refl
api_step-accepted now (writeback addr false) m = refl
api_step-accepted now (invalidate addr) m = refl
api_step-accepted now (promote_to_l1 addr) m = refl
api_step-accepted now (demote_to_l3 addr) m = refl
api_step-accepted now (batch_invalidate none) m = refl
api_step-accepted now (batch_invalidate (some addrs)) m = refl
api_step-accepted now flush_all m = refl
api_step-accepted now reset_statistics m = refl

run-put_first :
    (now : ℕ) (c : Option Call) (calls : List (ℕ × Call)) (m : CoherenceManager)
    → run calls (came_to now c m) ≡ run (put_first now c calls) m
unfolding put_first came_to run
run-put_first now none calls m = refl
run-put_first now (some c) calls m = refl

pub api_run-run :
    (calls : List (ℕ × ApiCall)) (m : CoherenceManager)
    → api_run calls (some m) ≡ some (run (all_accepted calls) m)
unfolding api_run all_accepted run
api_run-run [] m = refl
api_run-run ((now, c) ∷ calls) m =
    ap (api_run calls) (api_step-accepted now c m)
    ∙ api_run-run calls (came_to now (accepted c) m)
    ∙ ap (λ (n : CoherenceManager). some n) (run-put_first now (accepted c) (all_accepted calls) m)

-- Through a handle that is not null, after any sequence of calls of the C interface the directory is
-- line by line what the state machine of the lines says of those calls alone that have all their
-- pointers; the others change nothing.
pub line_at-api_run :
    (calls : List (ℕ × ApiCall)) (m : CoherenceManager)
    → Option.map line_at (api_run calls (some m))
      ≡ some (line_run m (all_accepted calls) (line_at m))
line_at-api_run calls m =
    ap (Option.map line_at) (api_run-run calls m)
    ∙ ap (λ (l : ℕ → Line). some l) (line_at-run (all_accepted calls) m)

api_step-null : (now : ℕ) (c : ApiCall) → (api_step now c none).0 ≡ none
unfolding api_step with_manager coherence_manager_request_read coherence_manager_request_write
    coherence_manager_invalidate coherence_manager_writeback coherence_manager_flush_all
    coherence_manager_promote_to_l1 coherence_manager_demote_to_l3
    coherence_manager_batch_invalidate coherence_manager_reset_statistics
api_step-null now (request_read addr b) = ground arith
api_step-null now (request_write addr b) = ground arith
api_step-null now (writeback addr b) = ground arith
api_step-null now (invalidate addr) = refl
api_step-null now (promote_to_l1 addr) = refl
api_step-null now (demote_to_l3 addr) = refl
api_step-null now (batch_invalidate none) = refl
api_step-null now (batch_invalidate (some addrs)) = refl
api_step-null now flush_all = refl
api_step-null now reset_statistics = refl

api_run-null : (calls : List (ℕ × ApiCall)) → api_run calls none ≡ none
unfolding api_run
api_run-null [] = refl
api_run-null ((now, c) ∷ calls) = ap (api_run calls) (api_step-null now c) ∙ api_run-null calls

-- A handle that is null, as when the device does not open, stays null under any sequence of calls, and
-- answers for every address the state and the tier that a new manager answers; it writes no
-- statistics.
pub api_run-create_fails :
    (calls : List (ℕ × ApiCall)) (line_size addr : ℕ) (writable : Bool)
    → (coherence_manager_get_state (api_run calls (coherence_manager_create false line_size)) addr
        ≡ coherence_manager_get_state (coherence_manager_create true line_size) addr)
      × (coherence_manager_get_tier (api_run calls (coherence_manager_create false line_size)) addr
          ≡ coherence_manager_get_tier (coherence_manager_create true line_size) addr)
      × (coherence_manager_get_statistics
            (api_run calls (coherence_manager_create false line_size))
            writable
          ≡ none)
unfolding coherence_manager_create coherence_manager_get_state coherence_manager_get_tier
    coherence_manager_get_statistics get_state get_tier get_entry create lookup
api_run-create_fails calls line_size addr writable =
    let null = api_run-null calls in (rw null refl, rw null refl, rw null refl)
