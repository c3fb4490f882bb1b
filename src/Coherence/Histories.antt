-- ===== src/Coherence/Histories.antt =====
-- A history of calls refines the same history on the lines alone.
use cxl_spec_kv.Common.{
  ℕ, Bool, true, List, [], ◌∷◌, if◌then◌else◌, ◌≡◌, refl, arith, ◌&&◌, ◌∙◌, fun_ext, ap,
}
use cxl_spec_kv.Coherence.Types.{CoherenceManager}
use cxl_spec_kv.Coherence.Directory.{
  get_entry, sent_invalidations, performed_writebacks, is_modified_state,
}
use cxl_spec_kv.Coherence.Tiers.{
  batch_invalidate_one, batch_invalidate_loop, batch_invalidate, batch_writeback_one,
  batch_writeback_loop, batch_writeback, reset_statistics, sync_directory_from_fpga,
}
use cxl_spec_kv.Coherence.Lines.{Line, line_at, invalidates, flushes, next}
use cxl_spec_kv.Coherence.Refines.{
  request_read-Follows, request_write-Follows, invalidate-Follows, writeback-Follows,
  promote_to_l1-Follows, demote_to_l3-Follows, update_tier-Follows, batch_invalidate_one-Follows,
  batch_writeback_one-Follows, flush_all-Flushes,
}
use cxl_spec_kv.Coherence.Calls.{
  Call, fetch, store, drop, save, promote, demote, retier, drop_all, save_all, flush, reset, sync,
  step, run, covers, affects, action, line_step, line_run,
}
use cxl_spec_kv.Coherence.Shape.{
  SameShape, batch_invalidate_one-SameShape, batch_writeback_one-SameShape, step-SameShape,
  covers-SameShape, affects-SameShape,
}

-- Dropping or flushing a line twice is doing it once.
next-invalidates_twice :
    (d : Bool) (x : Line) → next d invalidates (next d invalidates x) ≡ next d invalidates x
unfolding next
next-invalidates_twice d x = refl

next-flushes_twice :
    (d d' : Bool) (x : Line) → next d flushes (next d' flushes x) ≡ next d' flushes x
unfolding next is_modified_state
next-flushes_twice d d' x = ground arith

batch_invalidate_loop-line_at :
    (addrs : List ℕ) (m : CoherenceManager) (ok : Bool) (b : ℕ)
    → line_at (batch_invalidate_loop addrs (m, ok)).0 b
      ≡ (if covers m addrs b then next m.driver invalidates (line_at m b) else line_at m b)
unfolding batch_invalidate_loop covers
batch_invalidate_loop-line_at [] m ok b = refl
batch_invalidate_loop-line_at (addr ∷ addrs) m ok b =
    let one = batch_invalidate_one addr m in
    ground (
      arith,
      batch_invalidate_loop-line_at addrs one.0 (ok && one.1) b,
      covers-SameShape addrs b (batch_invalidate_one-SameShape addr m),
      batch_invalidate_one-SameShape addr m,
      batch_invalidate_one-Follows addr m b,
      next-invalidates_twice m.driver (line_at m b),
    )

batch_writeback_loop-line_at :
    (addrs : List ℕ) (m : CoherenceManager) (ok : Bool) (b : ℕ)
    → line_at (batch_writeback_loop addrs (m, ok)).0 b
      ≡ (if covers m addrs b then next m.driver flushes (line_at m b) else line_at m b)
unfolding batch_writeback_loop covers
batch_writeback_loop-line_at [] m ok b = refl
batch_writeback_loop-line_at (addr ∷ addrs) m ok b =
    let one = batch_writeback_one addr m in
    ground (
      arith,
      batch_writeback_loop-line_at addrs one.0 (ok && one.1) b,
      covers-SameShape addrs b (batch_writeback_one-SameShape addr m),
      batch_writeback_one-SameShape addr m,
      batch_writeback_one-Follows addr m b,
      next-flushes_twice m.driver m.driver (line_at m b),
    )

-- Each call moves the lines that it is about by its action, and no other line.
pub line_at-step :
    (now : ℕ) (c : Call) (m : CoherenceManager) (line : ℕ)
    → line_at (step now c m).0 line ≡ line_step m c (line_at m) line
unfolding step line_step affects action
line_at-step now (fetch addr) m b = request_read-Follows now addr m b
line_at-step now (store addr) m b = request_write-Follows now addr m b
line_at-step now (drop addr) m b = invalidate-Follows addr m b
line_at-step now (save addr) m b = writeback-Follows addr m b
line_at-step now (promote addr) m b = promote_to_l1-Follows addr m b
line_at-step now (demote addr) m b = demote_to_l3-Follows addr m b
line_at-step now (retier addr t) m b = update_tier-Follows addr t m b
line_at-step now (drop_all addrs) m b =
    unfold batch_invalidate sent_invalidations line_at get_entry in
    batch_invalidate_loop-line_at addrs m true b
line_at-step now (save_all addrs) m b =
    unfold batch_writeback performed_writebacks line_at get_entry in
    batch_writeback_loop-line_at addrs m true b
line_at-step now flush m b = flush_all-Flushes m b
line_at-step now reset m b = unfold reset_statistics line_at get_entry in refl
line_at-step now sync m b = unfold sync_directory_from_fpga line_at get_entry in ground arith

line_step-SameShape :
    {m n : CoherenceManager} (c : Call) (lines : ℕ → Line)
    → SameShape m n
    → line_step n c lines ≡ line_step m c lines
unfolding line_step
line_step-SameShape c lines s = fun_ext λ b. ground (arith, affects-SameShape c b s)

line_run-SameShape :
    {m n : CoherenceManager} (cs : List (ℕ × Call)) (lines : ℕ → Line)
    → SameShape m n
    → line_run n cs lines ≡ line_run m cs lines
unfolding line_run
line_run-SameShape [] lines s = refl
line_run-SameShape {m} {n} ((now, c) ∷ cs) lines s =
    ap (line_run n cs) (line_step-SameShape c lines s)
    ∙ line_run-SameShape cs (line_step m c lines) s

-- The directory after any history is what the state machine of the lines says.
pub line_at-run :
    (cs : List (ℕ × Call)) (m : CoherenceManager) → line_at (run cs m) ≡ line_run m cs (line_at m)
unfolding run line_run
line_at-run [] m = refl
line_at-run ((now, c) ∷ cs) m =
    line_at-run cs (step now c m).0
    ∙ (line_run-SameShape cs (line_at (step now c m).0) (step-SameShape now c m)
        ∙ ap (line_run m cs) (fun_ext (line_at-step now c m)))
