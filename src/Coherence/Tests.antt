-- ===== src/Coherence/Tests.antt =====
-- Runs of the coherence model, and its theorems at concrete managers.
use mathlib.Core.Option
use cxl_spec_kv.Coherence.ApiHistories as ApiHistories
use cxl_spec_kv.Coherence.ApiHistories.{
  ApiCall, api_run, all_accepted, line_at-api_run, api_run-create_fails,
}
use cxl_spec_kv.Common.{
  ℕ, ◌≡◌, refl, true, false, List, [], ◌∷◌, ◌^◌, arith, ◌&&◌, none, some, length,
}
use cxl_spec_kv.Common.Words.{add64}
use cxl_spec_kv.Common.Assoc.{lookup, insert, map_values}
use cxl_spec_kv.Coherence.Types.{CoherenceManager, shared, modified, invalid}
use cxl_spec_kv.Coherence.Directory.{
  create, align_to_cache_line, is_cached, get_entry, get_or_create_entry, send_coherence_op_to_fpga,
  put_entry, new_entry, sent_invalidations, is_modified_state, is_shared_state,
  performed_writebacks,
}
use cxl_spec_kv.Coherence.Methods.{request_read, request_write, invalidate, flush_all}
use cxl_spec_kv.Coherence.Tiers.{get_state, promote_to_l1}
use cxl_spec_kv.Coherence.Lines.{line_at}
use cxl_spec_kv.Coherence.Calls.{
  Call, fetch, store, drop, flush, promote, step, run, line_run, affects, action,
}
use cxl_spec_kv.Coherence.Histories.{line_at-run}
use cxl_spec_kv.Coherence.Protocol.{step-keeps_modified, cleans}
use cxl_spec_kv.Coherence.WellFormed.{IsWellFormed, run-create-IsWellFormed}
use cxl_spec_kv.Coherence.Counters.{IsBalanced, run-create-IsBalanced, read_counts}
use cxl_spec_kv.Coherence.Addresses.{get_state-request_write}
use cxl_spec_kv.Coherence.Report.{
  print_directory_state, destroy, of_states, of_tiers, Flushed, print_directory_state-destroy,
}

-- All that a run unfolds.
program : Unit {0}
unfolding run step get_state get_entry lookup insert map_values invalidate promote_to_l1 flush_all
    get_or_create_entry request_read request_write send_coherence_op_to_fpga put_entry
    align_to_cache_line new_entry sent_invalidations is_modified_state line_at create read_counts
    is_shared_state is_cached performed_writebacks
program = tt

abbrev fresh : CoherenceManager
fresh = create true 64

abbrev history : List (ℕ × Call)
history = (1, store 0x1000) ∷ (2, fetch 0x2010) ∷ (3, promote 0x3000) ∷ (4, drop 0x2000) ∷ []

abbrev written : CoherenceManager
written = (request_write 1 0x1000 fresh).0

written_states :
    (get_state 0x103F (run history fresh) ≡ modified)
    × (get_state 0x1040 (run history fresh) ≡ invalid)
    × (get_state 0x2000 (run history fresh) ≡ invalid)
    × (get_state 0x1000 (run ((5, flush) ∷ history) written) ≡ modified)
    × (get_state 0x1000 (flush_all written).0 ≡ shared)
unfolding program
written_states = (refl, refl, refl, refl, refl)

line_at-run_example : line_at (run history fresh) ≡ line_run fresh history (line_at fresh)
line_at-run_example = line_at-run history fresh

run-create-IsWellFormed_example : IsWellFormed (run history fresh)
run-create-IsWellFormed_example = run-create-IsWellFormed true 64 history

run-create-IsBalanced_example : IsBalanced (run history fresh)
run-create-IsBalanced_example = run-create-IsBalanced true 64 history

written_dirty : (line_at written 0x1000).state ≡ modified
unfolding program
written_dirty = refl

fetch_cleans_nothing :
    (affects written (fetch 0x1000) 0x1000 && cleans (action (fetch 0x1000))) ≡ false
unfolding affects action program
fetch_cleans_nothing = refl

step-keeps_modified_example : (line_at (step 2 (fetch 0x1000) written).0 0x1000).state ≡ modified
step-keeps_modified_example =
    step-keeps_modified 2 (fetch 0x1000) written 0x1000 written_dirty fetch_cleans_nothing

fresh_size : fresh.cache_line_size ≡ 2 ^ 6
unfolding create
fresh_size = refl

fresh_driver : fresh.driver ≡ true
unfolding create
fresh_driver = refl

get_state-request_write_example : get_state 0x103F (request_write 1 0x1000 fresh).0 ≡ modified
get_state-request_write_example =
    get_state-request_write 6 (omega arith) fresh fresh_size 1 0x1000 0x103F (omega arith)
      (omega arith) fresh_driver

written_size : written.cache_line_size ≡ 2 ^ 6
unfolding program
written_size = refl

-- A write, a read with a null pointer, a batch with one, and a flush.
abbrev api_calls : List (ℕ × ApiCall)
api_calls =
    (1, ApiHistories.request_write 0x1000 true)
    ∷ (2, ApiHistories.request_read 0x2000 false)
    ∷ (3, ApiHistories.batch_invalidate none)
    ∷ (4, ApiHistories.flush_all)
    ∷ []

line_at-api_run_example :
    Option.map line_at (api_run api_calls (some fresh))
    ≡ some (line_run fresh (all_accepted api_calls) (line_at fresh))
line_at-api_run_example = line_at-api_run api_calls fresh

print_directory_state-destroy_example :
    (of_states (print_directory_state written) ≡ length written.directory)
    × (of_tiers (print_directory_state written) ≡ length written.directory)
    × Flushed (print_directory_state written) (print_directory_state (destroy written))
    × ((destroy written).stats.writebacks_performed
        ≡ add64 written.stats.writebacks_performed (print_directory_state written).modified_count)
unfolding program
print_directory_state-destroy_example = print_directory_state-destroy written (omega arith)
