-- ===== src/Backend/Tests.antt =====
-- The theorems on runtime/backend at concrete graphs.
use Prim.Native.Nat.{◌∣◌}
use lsfg_nx.Base.{
  ◌+◌, length, ◌≤◌, ◌<◌, ◌≡◌, ◌⊎◌, ◌↔◌, arith, refl, Bool, true, false, List, [], ◌∷◌, All, some,
}
use lsfg_nx.Check.{each, for_range}
use lsfg_nx.Graph.Validate.{validate, check_image, check_binding, check_variant, check_dispatch}
use lsfg_nx.Graph.Example.{small_graph}
use lsfg_nx.Error.{ErrorCode}
use lsfg_nx.Graph.{Config, Graph}
use lsfg_nx.Backend.Built.{IsBuildable}
use lsfg_nx.Graph.Build.{build}
use lsfg_nx.Backend.Built.Total.{Built, build_iff, build-schedule}
use lsfg_nx.Outcome.{done, failed}
use lsfg_nx.Backend.Schedule.{
  Schedule, schedule, lay_out_stages, place_stages, check_stages, any_empty, combine_cycles,
  combine_cycle, measure_warmup, measure_frames, run_frame, run_dispatches, run_dispatch,
  read_textures, read_texture, write_storages, write_storage,
}
use lsfg_nx.Backend.Schedule.Lcm.{lcm}
use lsfg_nx.Backend.Schedule.Warmup.{run_frames, unwritten}
use lsfg_nx.Backend.Layout.{
  DescriptorLayout, no_descriptor, describe, mark_variants, mark_variant, mark_bindings,
  mark_binding, assign,
}
use lsfg_nx.Backend.Layout.Issued.{issued, below, describe-issued}
use lsfg_nx.Backend.Arena.{Arena, place}
use lsfg_nx.Backend.Arena.Laws.{Placed, place-Placed, place_beyond}
use lsfg_nx.Backend.Schedule.Clean.{schedule-cycle, schedule-clean}

abbrev small_schedule : Schedule
small_schedule = record {
  stages = record { first = 0; count = 1 } ∷ record { first = 1; count = 1 } ∷ [];
  cycle = 2;
  warmup_frames = 0;
}

small_graph_scheduled : schedule small_graph ≡ done small_schedule
unfolding schedule validate check_image check_dispatch check_variant check_binding each for_range
    lay_out_stages place_stages check_stages any_empty combine_cycles combine_cycle lcm
    measure_warmup measure_frames run_frame run_dispatches run_dispatch read_textures read_texture
    write_storages write_storage
small_graph_scheduled = refl

schedule-cycle_example : (0 < 2) × (2 ≤ 64) × All (λ d. d.variant_count ∣ 2) small_graph.dispatches
schedule-cycle_example = schedule-cycle small_graph small_schedule small_graph_scheduled

schedule-clean_example :
    (w : List Bool) × (c : Bool) × (u : List Bool) × (run_frames small_graph 0 7
        (unwritten small_graph)
      ≡ some w)
    × (run_frame small_graph 7 w ≡ some (c, u))
    × ((c ≡ true) ⊎ (7 < 0))
schedule-clean_example = schedule-clean small_graph small_schedule small_graph_scheduled 7

abbrev used_arena : Arena
used_arena = record { used = 1000; overflowed = false }

place-Placed_example :
    Placed used_arena 5000 256 (place used_arena 5000 256).0 (place used_arena 5000 256).1
unfolding place
place-Placed_example =
    place-Placed used_arena 5000 256 (omega arith) (omega arith) (omega arith) refl

abbrev late_arena : Arena
late_arena = record { used = 0x9000_0000; overflowed = false }

place_beyond_example :
    place late_arena 64 0x8000_0000 ≡ (record { used = 0x1_0000_0040; overflowed = false }, 0)
place_beyond_example =
    place_beyond late_arena 64 31 (omega arith) (omega arith) refl (omega arith) (omega arith)

abbrev small_layout : DescriptorLayout
small_layout = record {
  images =
      record { sampled = 0; storage = no_descriptor }
      ∷ record { sampled = 1; storage = no_descriptor }
      ∷ record { sampled = no_descriptor; storage = 2 }
      ∷ record { sampled = 3; storage = 4 }
      ∷ [];
  image_descriptors = 5;
  sampled_images = 3;
  storage_images = 2;
}

small_graph_described : describe small_graph ≡ done small_layout
unfolding describe mark_variants mark_variant mark_bindings mark_binding assign
small_graph_described = refl

describe-issued_example :
    (length small_layout.images ≡ length small_graph.images)
    × (issued small_layout.images ≡ below 5)
    × (5 ≡ 3 + 2)
describe-issued_example =
    describe-issued small_graph small_layout small_graph_described (omega arith)

abbrev common_config : Config
common_config = record {
  performance = true;
  hdr = false;
  generated_frames = 1;
  flow_numerator = 1;
  flow_denominator = 2;
}

build-schedule_example : Built common_config
build-schedule_example =
    build-schedule common_config (record { frames = omega arith; flow = omega arith }) refl

build_iff_example :
    (((g : Graph) × (build common_config ≡ done g)) ↔ IsBuildable common_config)
    × ((build common_config ≡ failed ErrorCode.invalid_argument) ↔ (¬ IsBuildable common_config))
build_iff_example = build_iff common_config (λ e. omega (arith, e)) (λ e. omega (arith, e))
