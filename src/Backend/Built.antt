-- ===== src/Backend/Built.antt =====
-- image_graph.cpp and schedule.cpp: `schedule` on the graphs that `build` makes.
pub mod One
pub mod Total
use lsfg_nx.Base.{
  ℕ, zero, suc, ◌+◌, ◌*◌, ◌≤◌, ◌<◌, ◌≡◌, ◌⊎◌, inl, inr, arith, refl, Bool, true, false, List, [],
  ◌∷◌,
}
use lsfg_nx.Error.{ErrorCode}
use lsfg_nx.Outcome.{Outcome, done, failed, faulted, ◌>>=◌, >>=-done}
use lsfg_nx.Check.{go, stop, fault, each, for_range}
use lsfg_nx.Graph.{Config, Graph}
use lsfg_nx.Graph.Validate.{validate, check_image, check_binding, check_variant, check_dispatch}
use lsfg_nx.Graph.Build.{build, add_passes, empty_graph}
use lsfg_nx.Backend.Schedule.{
  Schedule, StageRange, schedule, lay_out_stages, place_stages, check_stages, any_empty,
  combine_cycles, combine_cycle, measure_warmup, measure_frames, run_frame, run_dispatches,
  run_dispatch, read_textures, read_texture, write_storages, write_storage,
}
use lsfg_nx.Backend.Schedule.Lcm.{lcm, gcd}

-- A configuration of one to three generated frames, whose flow extent is not above the output's.
pub record IsBuildable (config : Config) : Type 0 where
  pub frames : (0 < config.generated_frames) × (config.generated_frames ≤ 3)
  pub flow : (0 < config.flow_numerator) × (config.flow_numerator ≤ config.flow_denominator)

-- The stages of a graph with so many generated frames, from the dispatch given on.
abbrev pub frame_stages : ℕ → ℕ → List StageRange
frame_stages first zero = []
frame_stages first (suc frames) =
    record { first = first; count = 66 } ∷ frame_stages (first + 66) frames

abbrev pub built_schedule : ℕ → Schedule
built_schedule frames = record {
  stages = record { first = 0; count = 34 } ∷ frame_stages 34 frames;
  cycle = 6;
  warmup_frames = 2;
}

-- The configuration and the schedule of what a build leaves.
unfoldable pub schedule_of : Outcome (Unit {0} × Graph) → Outcome (Config × Schedule)
schedule_of (done (t, g)) = schedule g >>= λ s. done (g.config, s)
schedule_of (failed e) = failed e
schedule_of faulted = faulted

-- The same for a configuration, with all of its passes and of their schedule opened.
unfoldable pub scheduled : Config → Outcome (Config × Schedule)
unfolding schedule_of add_passes schedule each for_range validate check_image check_binding
    check_variant check_dispatch lay_out_stages place_stages check_stages any_empty combine_cycles
    combine_cycle lcm gcd measure_warmup measure_frames run_frame run_dispatches run_dispatch
    read_textures read_texture write_storages write_storage
scheduled config = schedule_of (add_passes config (empty_graph config))

abbrev pub config_of : Bool → Bool → ℕ → ℕ → ℕ → Config
config_of performance hdr generated_frames numerator denominator = record {
  performance = performance;
  hdr = hdr;
  generated_frames = generated_frames;
  flow_numerator = numerator;
  flow_denominator = denominator;
}

-- For each number of frames, the graph of a configuration is scheduled as said.
abbrev pub Schedules : Bool → Bool → ℕ → Type 0
Schedules performance hdr frames =
    (numerator denominator : ℕ)
    → let config = config_of performance hdr frames numerator denominator in
      schedule_of (add_passes config (empty_graph config)) ≡ done (config, built_schedule frames)
