-- ===== src/Coherence/Calls.antt =====
-- A history of calls on a `CoherenceManager`, and the same history on the lines alone.
use cxl_spec_kv.Common.{ℕ, Bool, true, false, List, [], ◌∷◌, if◌then◌else◌, ◌==◌, ◌||◌}
use cxl_spec_kv.Coherence.Types.{MemoryTier, CoherenceManager}
use cxl_spec_kv.Coherence.Directory.{align_to_cache_line}
use cxl_spec_kv.Coherence.Methods.{request_read, request_write, invalidate, writeback, flush_all}
use cxl_spec_kv.Coherence.Tiers.{
  promote_to_l1, demote_to_l3, update_tier, batch_invalidate, batch_writeback, reset_statistics,
  sync_directory_from_fpga,
}
use cxl_spec_kv.Coherence.Lines.{
  Line, Action, reads, writes, invalidates, writes_back, flushes, promotes, demotes, moves, next,
}

-- One constructor for each public method that may change the manager.
pub data Call : Type 0 where
  fetch store drop save promote demote : ℕ → Call
  retier : ℕ → MemoryTier → Call
  drop_all save_all : List ℕ → Call
  flush reset sync : Call

unfoldable pub step : ℕ → Call → CoherenceManager → CoherenceManager × Bool
step now (fetch addr) m = request_read now addr m
step now (store addr) m = request_write now addr m
step now (drop addr) m = invalidate addr m
step now (save addr) m = writeback addr m
step now (promote addr) m = promote_to_l1 addr m
step now (demote addr) m = demote_to_l3 addr m
step now (retier addr t) m = (update_tier addr t m, true)
step now (drop_all addrs) m = batch_invalidate addrs m
step now (save_all addrs) m = batch_writeback addrs m
step now flush m = flush_all m
step now reset m = (reset_statistics m, true)
step now sync m = sync_directory_from_fpga m

-- A history: each call with the time at which it is made.
unfoldable pub run : List (ℕ × Call) → CoherenceManager → CoherenceManager
run [] m = m
run ((now, c) ∷ cs) m = run cs (step now c m).0

-- Some address of the batch lies in the line.
unfoldable pub covers : CoherenceManager → List ℕ → ℕ → Bool
covers m [] line = false
covers m (addr ∷ addrs) line = (align_to_cache_line m addr == line) || covers m addrs line

-- Which lines a call is about, and what it does to them.
unfoldable pub affects : CoherenceManager → Call → ℕ → Bool
affects m (fetch addr) line = align_to_cache_line m addr == line
affects m (store addr) line = align_to_cache_line m addr == line
affects m (drop addr) line = align_to_cache_line m addr == line
affects m (save addr) line = align_to_cache_line m addr == line
affects m (promote addr) line = align_to_cache_line m addr == line
affects m (demote addr) line = align_to_cache_line m addr == line
affects m (retier addr t) line = align_to_cache_line m addr == line
affects m (drop_all addrs) line = covers m addrs line
affects m (save_all addrs) line = covers m addrs line
affects m flush line = true
affects m reset line = false
affects m sync line = false

unfoldable pub action : Call → Action
action (fetch addr) = reads
action (store addr) = writes
action (drop addr) = invalidates
action (save addr) = writes_back
action (promote addr) = promotes
action (demote addr) = demotes
action (retier addr t) = moves t
action (drop_all addrs) = invalidates
action (save_all addrs) = flushes
action flush = flushes
action reset = flushes
action sync = flushes

-- One call on the lines alone; the manager gives the driver and the line size.
unfoldable pub line_step : CoherenceManager → Call → (ℕ → Line) → ℕ → Line
line_step m c lines line =
    if affects m c line then next m.driver (action c) (lines line) else lines line

unfoldable pub line_run : CoherenceManager → List (ℕ × Call) → (ℕ → Line) → ℕ → Line
line_run m [] lines = lines
line_run m ((now, c) ∷ cs) lines = line_run m cs (line_step m c lines)
