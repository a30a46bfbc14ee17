-- ===== src/Graph/Build.antt =====
-- image_graph.cpp: `build`.
use lsfg_nx.Base.{◌+◌, ◌%◌, ◌^◌, ◌||◌, [], ltb, ◌==◌, if◌then◌else◌, replicate}
use lsfg_nx.Error.{ErrorCode}
use lsfg_nx.Check.{go, stop, fault}
use lsfg_nx.Outcome.{Outcome, done, failed, faulted}
use lsfg_nx.Graph.{Config, Graph, max_generated_frames}
use lsfg_nx.Graph.Validate.{validate}
use lsfg_nx.Graph.Builder.{Build, ◌>>=◌, at, loop}
use lsfg_nx.Graph.Prepass.{
  pyramid_levels, width_of, no_level, add_frames, add_mipmaps, add_alpha, add_beta,
}
use lsfg_nx.Graph.Frames.{add_generated}

-- `out` before the first image.
abbrev pub empty_graph : Config → Graph
empty_graph config = record {
  config = config;
  images = [];
  dispatches = [];
  variants = [];
  bindings = [];
  uniform_buffer_count = (1 + config.generated_frames) % 2 ^ 32;
}

-- The passes of a configuration.
unfoldable pub add_passes : Config → Build (Unit {0})
unfolding add_frames add_mipmaps add_alpha add_beta add_generated loop
add_passes config =
    let width = width_of config in
    do
      images ← add_frames config
      mip ← add_mipmaps images.history
      alpha ← loop 0 pyramid_levels (add_alpha width mip) (replicate pyramid_levels no_level)
      base ← at alpha 0
      beta_pyramid ← add_beta base
      loop 0 config.generated_frames
          (λ frame _. add_generated images alpha beta_pyramid width frame) tt

unfoldable pub build : Config → Outcome Graph
build config =
    if config.generated_frames == 0 || ltb max_generated_frames config.generated_frames
    then failed ErrorCode.invalid_argument
    else if config.flow_numerator == 0
        || config.flow_denominator == 0
        || ltb config.flow_denominator config.flow_numerator
    then failed ErrorCode.invalid_argument
    else elim (add_passes config (empty_graph config)) [
      | done built ↦ elim (validate built.1) [
        | go ↦ done built.1
        | stop e ↦ failed e
        | fault ↦ faulted
      ]
      | failed e ↦ failed e
      | faulted ↦ faulted
    ]
