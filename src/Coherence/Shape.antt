-- ===== src/Coherence/Shape.antt =====
-- No method changes the driver or the line size, so none changes the line of an address.
use cxl_spec_kv.Common.{ℕ, Bool, true, List, [], ◌∷◌, ◌≡◌, refl, arith, ◌&&◌}
use cxl_spec_kv.Coherence.Types.{CoherenceManager}
use cxl_spec_kv.Coherence.Directory.{
  align_to_cache_line, put_entry, get_or_create_entry, update_statistics, sent_invalidations,
  performed_writebacks, send_coherence_op_to_fpga,
}
use cxl_spec_kv.Coherence.Frames.{flush_entries-SameLines}
use cxl_spec_kv.Coherence.Methods.{
  request_read, request_write, invalidate, writeback, flush_all, note_write,
}
use cxl_spec_kv.Coherence.Tiers.{
  promote_to_l1, demote_to_l3, update_tier, batch_invalidate_one, batch_invalidate_loop,
  batch_invalidate, batch_writeback_one, batch_writeback_loop, batch_writeback, reset_statistics,
  sync_directory_from_fpga,
}
use cxl_spec_kv.Coherence.Calls.{
  Call, fetch, store, drop, save, promote, demote, retier, drop_all, save_all, flush, reset, sync,
  step, covers, affects,
}

pub record SameShape (m n : CoherenceManager) : Type 0 where
  pub driver_same : n.driver ≡ m.driver
  pub size_same : n.cache_line_size ≡ m.cache_line_size

SameShape-trans : {l m n : CoherenceManager} → SameShape l m → SameShape m n → SameShape l n
SameShape-trans p q = ground arith

pub batch_invalidate_one-SameShape :
    (addr : ℕ) (m : CoherenceManager) → SameShape m (batch_invalidate_one addr m).0
unfolding batch_invalidate_one put_entry send_coherence_op_to_fpga
batch_invalidate_one-SameShape addr m = ground arith

pub batch_writeback_one-SameShape :
    (addr : ℕ) (m : CoherenceManager) → SameShape m (batch_writeback_one addr m).0
unfolding batch_writeback_one put_entry send_coherence_op_to_fpga
batch_writeback_one-SameShape addr m = ground arith

batch_invalidate_loop-SameShape :
    (addrs : List ℕ) (m : CoherenceManager) (b : Bool)
    → SameShape m (batch_invalidate_loop addrs (m, b)).0
unfolding batch_invalidate_loop
batch_invalidate_loop-SameShape [] m b = ground arith
batch_invalidate_loop-SameShape (addr ∷ addrs) m b =
    SameShape-trans (batch_invalidate_one-SameShape addr m)
      (batch_invalidate_loop-SameShape addrs _ (b && (batch_invalidate_one addr m).1))

batch_writeback_loop-SameShape :
    (addrs : List ℕ) (m : CoherenceManager) (b : Bool)
    → SameShape m (batch_writeback_loop addrs (m, b)).0
unfolding batch_writeback_loop
batch_writeback_loop-SameShape [] m b = ground arith
batch_writeback_loop-SameShape (addr ∷ addrs) m b =
    SameShape-trans (batch_writeback_one-SameShape addr m)
      (batch_writeback_loop-SameShape addrs _ (b && (batch_writeback_one addr m).1))

helpers : Unit {0}
unfolding put_entry get_or_create_entry update_statistics sent_invalidations performed_writebacks
    send_coherence_op_to_fpga
helpers = tt

pub step-SameShape : (now : ℕ) (c : Call) (m : CoherenceManager) → SameShape m (step now c m).0
unfolding step helpers
step-SameShape now (fetch addr) m = unfold request_read in ground arith
step-SameShape now (store addr) m = unfold request_write note_write in ground arith
step-SameShape now (drop addr) m = unfold invalidate in ground arith
step-SameShape now (save addr) m = unfold writeback in ground arith
step-SameShape now (promote addr) m = unfold promote_to_l1 in ground arith
step-SameShape now (demote addr) m = unfold demote_to_l3 in ground arith
step-SameShape now (retier addr t) m = unfold update_tier in ground arith
step-SameShape now (drop_all addrs) m =
    unfold batch_invalidate in ground (arith, batch_invalidate_loop-SameShape addrs m true)
step-SameShape now (save_all addrs) m =
    unfold batch_writeback in ground (arith, batch_writeback_loop-SameShape addrs m true)
step-SameShape now flush m =
    unfold flush_all in ground (arith, flush_entries-SameLines m.directory m 0)
step-SameShape now reset m = unfold reset_statistics in ground arith
step-SameShape now sync m = unfold sync_directory_from_fpga in ground arith

pub align-SameShape :
    {m n : CoherenceManager} (addr : ℕ)
    → SameShape m n
    → align_to_cache_line n addr ≡ align_to_cache_line m addr
unfolding align_to_cache_line
align-SameShape addr s = ground arith

pub covers-SameShape :
    {m n : CoherenceManager} (addrs : List ℕ) (line : ℕ)
    → SameShape m n
    → covers n addrs line ≡ covers m addrs line
unfolding covers
covers-SameShape [] line s = refl
covers-SameShape (addr ∷ addrs) line s =
    ground (arith, align-SameShape addr s, covers-SameShape addrs line s)

pub affects-SameShape :
    {m n : CoherenceManager} (c : Call) (line : ℕ)
    → SameShape m n
    → affects n c line ≡ affects m c line
unfolding affects
affects-SameShape (fetch addr) line s = ground (arith, align-SameShape addr s)
affects-SameShape (store addr) line s = ground (arith, align-SameShape addr s)
affects-SameShape (drop addr) line s = ground (arith, align-SameShape addr s)
affects-SameShape (save addr) line s = ground (arith, align-SameShape addr s)
affects-SameShape (promote addr) line s = ground (arith, align-SameShape addr s)
affects-SameShape (demote addr) line s = ground (arith, align-SameShape addr s)
affects-SameShape (retier addr t) line s = ground (arith, align-SameShape addr s)
affects-SameShape (drop_all addrs) line s = covers-SameShape addrs line s
affects-SameShape (save_all addrs) line s = covers-SameShape addrs line s
affects-SameShape _ line s = refl
