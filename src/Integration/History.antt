-- ===== src/Integration/History.antt =====
-- What any sequence of calls on the allocator (src/integration/memory_allocator.cpp) leaves.
use cxl_spec_kv.Common.{
  ℕ, ◌+◌, ◌-◌, ◌^◌, ◌*◌, ◌≤◌, ◌≡◌, ◌⊎◌, inl, inr, refl, true, List, [], ◌∷◌, arith, subst,
}
use cxl_spec_kv.Common.Words.{u64_mod}
use cxl_spec_kv.Common.Assoc.{lookup, total}
use cxl_spec_kv.Engine.Floats.{Floats}
use cxl_spec_kv.Memory.Types.{
  gigabytes, MemoryPage, MemoryTier, MemoryManager, l1_gpu_local, l2_prefetch, l3_cxl_pool,
}
use cxl_spec_kv.Integration.Types.{
  Reply, ◌>>=◌, answer, hangs, AllocationHandle, CxlMemoryAllocator, create,
}
use cxl_spec_kv.Integration.Methods.{initialize, all_built}
use cxl_spec_kv.Integration.Calls.{
  Call, malloc, free, access, hint, step, run, sized, all_sized, cost, demand, promotions, accesses,
}
use cxl_spec_kv.Memory.Types as Memory
use cxl_spec_kv.Integration.Books.{IsBalanced}
use cxl_spec_kv.Integration.Room.{still-Roomy}
use cxl_spec_kv.Integration.Goes.{Laws, Goes, malloc-Goes, free-Goes, access-Goes, hint-Goes}

module _ (f : Floats) where
  no_cost :
      {room : ℕ} {m : MemoryManager} {a : CxlMemoryAllocator f}
      → IsBalanced f (0 + room) m a
      → IsBalanced f room m a
  no_cost {room} {m} {a} b = subst (λ r. IsBalanced f r m a) (omega arith) b

  module _ (J : ℕ → MemoryManager → List (ℕ × AllocationHandle) → Type 0) where
    no_cost_kept :
        (room : ℕ) (m : MemoryManager) (handles : List (ℕ × AllocationHandle))
        → J (0 + room) m handles
        → J room m handles
    no_cost_kept room m handles j = subst (λ r. J r m handles) (omega arith) j

    module _ (laws : Laws f J) where
      step-Goes :
          (c : Call f) (room : ℕ) (m : MemoryManager) (a : CxlMemoryAllocator f)
          → sized f c ≡ true
          → IsBalanced f (cost f c + room) m a
          → J (cost f c + room) m a.handle_map
          → Goes f J room (promotions f c) m (step f c a)
      unfolding sized cost promotions
      step-Goes (malloc now size layer) room m a positive b j =
          malloc-Goes f J laws now size layer room m a positive b j
      step-Goes (free ptr) room m a positive b j =
          free-Goes f J laws ptr room m a (lookup ptr a.handle_map) refl (no_cost b)
            (no_cost_kept room m a.handle_map j)
      step-Goes (access now ptr offset) room m a positive b j =
          access-Goes f J laws now ptr offset room m a (lookup ptr a.handle_map) refl (no_cost b)
            (no_cost_kept room m a.handle_map j)
      step-Goes (hint predict_top_k now latency_us history layer) room m a positive b j =
          hint-Goes f J laws predict_top_k now latency_us history layer room m a (no_cost b)
            (no_cost_kept room m a.handle_map j)

      -- A call, then what follows it.
      then-Goes :
          (j k room : ℕ) (m : MemoryManager) (r : Reply (CxlMemoryAllocator f))
          (next : CxlMemoryAllocator f → Reply (CxlMemoryAllocator f))
          → ((n : MemoryManager) (a : CxlMemoryAllocator f)
              → IsBalanced f room n a
              → J room n a.handle_map
              → Goes f J 0 k n (next a))
          → Goes f J room j m r
          → Goes f J 0 (j + k) m (r >>= next)
      then-Goes j k room m r next follow (inl stuck) =
          inl (rw (stuck.0) refl, λ enough. stuck.1 (omega (arith, enough)))
      then-Goes j k room m r next follow (inr (a, n, e, balanced, kept, roomy)) =
          elim (follow n a balanced kept) [
            | inl stuck ↦ inl (rw (e, stuck.0) refl, λ enough. stuck.1 (roomy k enough))
            | inr (last, o, answered, at_last, kept_last, left) ↦ inr (
              last,
              o,
              rw (e, answered) refl,
              at_last,
              kept_last,
              λ h enough. left h (roomy (k + h) (omega (arith, enough))),
            )
          ]

      run-Goes :
          (calls : List (Call f)) (m : MemoryManager) (a : CxlMemoryAllocator f)
          → all_sized f calls ≡ true
          → IsBalanced f (demand f calls) m a
          → J (demand f calls) m a.handle_map
          → Goes f J 0 (accesses f calls) m (run f calls a)
      unfolding run demand all_sized accesses
      run-Goes [] m a positive b j = inr (a, m, refl, b, j, λ k. still-Roomy f k m)
      run-Goes (c ∷ calls) m a positive b j =
          let here : sized f c ≡ true = ground arith in
          let later : all_sized f calls ≡ true = ground arith in
          then-Goes (promotions f c) (accesses f calls) (demand f calls) m (step f c a)
            (run f calls) (λ n after balanced kept. run-Goes calls n after later balanced kept)
            (step-Goes c (demand f calls) m a here b j)

  pub initialize-IsBalanced :
      (l1 l2 l3 room : ℕ)
      → room ≤ u64_mod - 2 ^ 32
      → IsBalanced f room
          (Memory.create l1 l2 l3 4096)
          (initialize f all_built l1 l2 l3 (create f)).0
  unfolding initialize create total Memory.create gigabytes
  initialize-IsBalanced l1 l2 l3 room h = record {
    ready = refl;
    has_manager = refl;
    free_lock = refl;
    pages = refl;
    l1_fits = omega arith;
    start = omega arith;
    fits = omega (arith, h);
    below = tt;
    distinct = tt;
    in_use = refl;
    open_handles = refl;
    few_bytes = omega arith;
    few_calls = omega arith;
    peak = omega arith;
  }

  -- The allocator after it was initialised and some calls were made.
  abbrev pub history : ℕ → ℕ → ℕ → List (Call f) → Reply (CxlMemoryAllocator f)
  history l1 l2 l3 calls = run f calls (initialize f all_built l1 l2 l3 (create f)).0

  pub history-Goes :
      (J : ℕ → MemoryManager → List (ℕ × AllocationHandle) → Type 0)
      → Laws f J
      → (l1 l2 l3 : ℕ) (calls : List (Call f)) → all_sized f calls ≡ true
      → demand f calls ≤ u64_mod - 2 ^ 32
      → J (demand f calls) (Memory.create l1 l2 l3 4096) []
      → Goes f J 0 (accesses f calls) (Memory.create l1 l2 l3 4096) (history l1 l2 l3 calls)
  unfolding initialize create
  history-Goes J laws l1 l2 l3 calls positive small start =
      run-Goes J laws calls (Memory.create l1 l2 l3 4096)
        (initialize f all_built l1 l2 l3 (create f)).0 positive
        (initialize-IsBalanced l1 l2 l3 (demand f calls) small) start

  -- No further invariant.
  books_alone : Laws f (λ room m handles. Unit)
  books_alone = record {
    on_malloc = λ now size layer room m a sized b j. tt;
    on_free = λ ptr room m a h b e j. tt;
    on_touch = λ room m n handles same j. tt;
  }

  -- A newly initialised allocator, and any sequence of allocations of at least one byte, releases,
  -- accesses and prefetch hints that does not run out of virtual addresses: no call goes through a
  -- null pointer, and unless an access waits for ever the books balance at the end. The handles are
  -- distinct, the bytes in use are the sum of their sizes and at most the peak, and the allocations
  -- less the releases are their number.
  pub history-IsBalanced :
      (l1 l2 l3 : ℕ) (calls : List (Call f))
      → all_sized f calls ≡ true
      → demand f calls ≤ u64_mod - 2 ^ 32
      → (history l1 l2 l3 calls ≡ hangs)
        ⊎ ((a : CxlMemoryAllocator f) × (m : MemoryManager) × (history l1 l2 l3 calls ≡ answer a)
            × IsBalanced f 0 m a)
  history-IsBalanced l1 l2 l3 calls positive small =
      elim (history-Goes _ books_alone l1 l2 l3 calls positive small tt) [
        | inl stuck ↦ inl (stuck.0)
        | inr (a, m, e, balanced, _, _) ↦ inr (a, m, e, balanced)
      ]

  -- A newly initialised allocator, and any sequence of allocations of at least one byte, releases,
  -- accesses and prefetch hints that does not run out of virtual addresses: if there are no more
  -- accesses than pages fit in L1, every call returns.
  pub history-answers :
      (l1 l2 l3 : ℕ) (calls : List (Call f))
      → all_sized f calls ≡ true
      → demand f calls ≤ u64_mod - 2 ^ 32
      → accesses f calls * 4096 ≤ gigabytes l1
      → (a : CxlMemoryAllocator f) × (history l1 l2 l3 calls ≡ answer a)
  unfolding Memory.create
  history-answers l1 l2 l3 calls positive small room =
      elim (history-Goes _ books_alone l1 l2 l3 calls positive small tt) [
        | inl stuck ↦ absurd (stuck.1 (omega (arith, room)))
        | inr (a, m, e, _, _, _) ↦ (a, e)
      ]
