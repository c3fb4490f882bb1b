-- ===== src/System/Demo.antt =====
-- The demonstration program (src/main.cpp). What it prints on the way is left out; the exit code, and
-- the token and the statistics that it prints at the end, are its result.
use cxl_spec_kv.Common.{
  ℕ, ◌<◌, ◌≡◌, ◌≢◌, refl, true, false, List, [], ◌∷◌, Option, none, some, arith,
}
use cxl_spec_kv.Engine.Floats.{Floats}
use cxl_spec_kv.Memory.Types.{MemoryManager, gigabytes}
use cxl_spec_kv.Integration.Types.{Reply, answer, ◌>>=◌, CxlMemoryAllocator}
use cxl_spec_kv.Integration.Methods as Allocator
use cxl_spec_kv.Integration.Methods.{Built, all_built, none_built, manager_built, prefetcher_built}
use cxl_spec_kv.Integration.Books.{IsBalanced}
use cxl_spec_kv.Integration.Room.{prefetch_hint-result}
use cxl_spec_kv.System.Types.{
  SystemConfig, SystemStatistics, Readings, CxlSpecKvSystem, create, default_config,
}
use cxl_spec_kv.Prefetch.Window.{last}
use cxl_spec_kv.System.Methods.{
  initialize, process_tokens, generate_next_token, get_statistics, back,
}
use cxl_spec_kv.System.Process.{all_sized, kv_bytes, process_tokens-Served}

abbrev pub token_history : List ℕ
token_history = 1 ∷ 2 ∷ 3 ∷ 4 ∷ 5 ∷ 6 ∷ 7 ∷ 8 ∷ 9 ∷ 10 ∷ 11 ∷ 12 ∷ 13 ∷ 14 ∷ 15 ∷ 16 ∷ []

abbrev pub token_batches : List (List ℕ)
token_batches =
    (1 ∷ 2 ∷ 3 ∷ 4 ∷ 5 ∷ 6 ∷ 7 ∷ 8 ∷ 9 ∷ 10 ∷ 11 ∷ 12 ∷ 13 ∷ 14 ∷ 15 ∷ 16 ∷ [])
    ∷ (17 ∷ 18 ∷ 19 ∷ 20 ∷ 21 ∷ 22 ∷ 23 ∷ 24 ∷ 25 ∷ 26 ∷ 27 ∷ 28 ∷ 29 ∷ 30 ∷ 31 ∷ 32 ∷ [])
    ∷ []

module _ (f : Floats) where
  open f use {double_hundredths}

  abbrev pub demo_config : SystemConfig f
  demo_config = record (default_config f) {
    l1_size_gb = 12;
    l2_size_gb = 3;
    l3_size_gb = 128;
    prefetch_depth = 4;
    history_length = 16;
    num_fpga_engines = 1;
    fpga_clock_mhz = double_hundredths 80000;
    num_layers = 80;
    hidden_dim = 8192;
    num_heads = 64;
  }

  -- The exit code, with what is printed at the end.
  abbrev pub Exit : Type 0
  Exit = ℕ × Option (ℕ × SystemStatistics f)

  -- What is read from outside are the readings of each turn, and those of the generation.
  unfoldable pub main : Built f → ℕ → (ℕ → ℕ → Readings f) → Readings f → Reply Exit
  main built fuel r at_generation =
      let (system, ready) = initialize f built demo_config (create f) in
      elim ready [
        | false ↦ answer (1, none)
        | true ↦ do
          (processed, done) ← process_tokens f fuel r token_batches system
          elim done [
            | false ↦ answer (1, none)
            | true ↦ do
              (generated, next_token) ←
                  generate_next_token f at_generation token_history 0 processed
              answer (0, some (next_token, get_statistics f generated))
          ]
      ]

  abbrev at_start : CxlSpecKvSystem f
  at_start = (initialize f all_built demo_config (create f)).0

  demo_processed :
      (fuel : ℕ) (r : ℕ → ℕ → Readings f)
      → 80 < fuel
      → (a : CxlMemoryAllocator f) × (m : MemoryManager) × (process_tokens f fuel r token_batches
            at_start
          ≡ answer (record at_start { allocator = some a }, true))
        × IsBalanced f 0 m a
  unfolding all_sized kv_bytes gigabytes
  demo_processed fuel r enough =
      let (a, m, e, balanced, _) =
        process_tokens-Served f demo_config fuel r token_batches (omega arith) enough refl
          (omega arith) (omega arith) in
      (a, m, e, balanced)

  demo_generated :
      (r : Readings f) (a : CxlMemoryAllocator f) (m : MemoryManager)
      → IsBalanced f 0 m a
      → (h : CxlMemoryAllocator f) × (generate_next_token f r token_history 0
            (record at_start { allocator = some a })
          ≡ answer (record at_start { allocator = some h }, 17))
  unfolding generate_next_token back initialize Allocator.initialize
  demo_generated r a m balanced =
      let (h, e, _, _, _) =
        prefetch_hint-result f r.predict_top_k r.request_times r.latency_us (last 16 token_history)
          0 0 m a a.prefetcher refl balanced in
      (h, rw e refl)

  ready : (initialize f all_built demo_config (create f)).1 ≡ true
  unfolding initialize Allocator.initialize
  ready = refl

  main-fails :
      (built : Built f) (fuel : ℕ) (r : ℕ → ℕ → Readings f) (at_generation : Readings f)
      → built ≢ all_built
      → main built fuel r at_generation ≡ answer (1, none)
  unfolding main initialize Allocator.initialize
  main-fails none_built fuel r at_generation thrown = refl
  main-fails manager_built fuel r at_generation thrown = refl
  main-fails prefetcher_built fuel r at_generation thrown = refl
  main-fails all_built fuel r at_generation thrown = absurd (thrown refl)

  -- The demonstration program, with fuel for its 80 layers, whatever the clock and the predictor
  -- give: if all parts are built it ends with code 0 and prints 17, the last token of its history
  -- plus one, and if a constructor throws it ends with code 1.
  pub main-exits :
      (fuel : ℕ) (r : ℕ → ℕ → Readings f) (at_generation : Readings f)
      → 80 < fuel
      → ((stats : SystemStatistics f) × (main all_built fuel r at_generation
            ≡ answer (0, some (17, stats))))
        × ((built : Built f)
            → built ≢ all_built
            → main built fuel r at_generation ≡ answer (1, none))
  unfolding main initialize get_statistics Allocator.initialize
  main-exits fuel r at_generation enough =
      let (a, m, processed, balanced) = demo_processed fuel r enough in
      let (h, generated) = demo_generated at_generation a m balanced in
      (
        (
          get_statistics f (record at_start { allocator = some h }),
          rw (ready, processed, generated) refl,
        ),
        λ built. main-fails built fuel r at_generation,
      )
