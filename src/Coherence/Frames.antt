-- ===== src/Coherence/Frames.antt =====
-- What the helpers leave alone: sending an operation and counting touch only the counters.
use cxl_spec_kv.Common.{ℕ, Bool, if◌then◌else◌, ◌≡◌, arith, List, [], ◌∷◌, ◌+◌}
use cxl_spec_kv.Coherence.Types.{CoherenceManager, CoherenceOp, DirectoryEntry}
use cxl_spec_kv.Coherence.Directory.{send_coherence_op_to_fpga, performed_writebacks}
use cxl_spec_kv.Coherence.Methods.{flush_entries}

-- The same driver, line size and directory.
pub record SameLines (m n : CoherenceManager) : Type 0 where
  pub driver_same : n.driver ≡ m.driver
  pub size_same : n.cache_line_size ≡ m.cache_line_size
  pub directory_same : n.directory ≡ m.directory

pub send-SameLines :
    (op : CoherenceOp) (addr : ℕ) (m : CoherenceManager)
    → SameLines m (send_coherence_op_to_fpga op addr m).0
unfolding send_coherence_op_to_fpga
send-SameLines op addr m = ground arith

-- The request succeeds exactly when there is a driver.
pub send-result :
    (op : CoherenceOp) (addr : ℕ) (m : CoherenceManager)
    → (send_coherence_op_to_fpga op addr m).1 ≡ m.driver
unfolding send_coherence_op_to_fpga
send-result op addr m = ground arith

pub counted_writeback-SameLines :
    (b : Bool) (n : ℕ) (m : CoherenceManager)
    → SameLines m (if b then performed_writebacks n m else m)
unfolding performed_writebacks
counted_writeback-SameLines b n m = ground arith

pub SameLines-trans : {l m n : CoherenceManager} → SameLines l m → SameLines m n → SameLines l n
SameLines-trans p q = ground arith

pub flush_entries-SameLines :
    (d : List (ℕ × DirectoryEntry)) (m : CoherenceManager) (n : ℕ)
    → SameLines m (flush_entries d m n).1
unfolding flush_entries
flush_entries-SameLines [] m n = ground arith
flush_entries-SameLines ((line, e) ∷ d) m n =
    let sent = (send_coherence_op_to_fpga CoherenceOp.writeback line m).0 in
    ground (
      arith,
      flush_entries-SameLines d m n,
      SameLines-trans (send-SameLines CoherenceOp.writeback line m)
          (flush_entries-SameLines d sent (n + 1)),
    )
