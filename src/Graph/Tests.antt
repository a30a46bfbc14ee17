-- ===== src/Graph/Tests.antt =====
-- The theorems on common/image-graph at concrete graphs.
use lsfg_nx.Base.{true, ℕ, ◌≤◌, ◌<◌, ◌⊎◌, List, [], ◌∷◌, All, ◌≡◌, ◌↔◌, refl, arith}
use lsfg_nx.Error.{ErrorCode}
use lsfg_nx.Outcome.{done, failed}
use lsfg_nx.Graph.Required.{Precision, ShaderSet, ModuleRequest, required_modules}
use lsfg_nx.Graph.Sorted.{needed, Lists}
use lsfg_nx.Graph.Listed.{required_modules-Lists}
use lsfg_nx.Check.{go, fault, each, for_range}
use lsfg_nx.Graph.{ImageDesc}
use lsfg_nx.Graph.Extent.{evaluate, ceil_halve}
use lsfg_nx.Graph.Validate.{validate, check_image, check_binding, check_variant, check_dispatch}
use lsfg_nx.Graph.WellFormed.{Addressable, WellFormed, validate_iff}
use lsfg_nx.Graph.Modules.{
  ModuleInterface, block_index_of, find_interface, check_declared, check_interface,
  check_against_modules,
}
use lsfg_nx.Graph.Interfaces.{InterfaceOk, check_against_modules_iff}
use lsfg_nx.Graph.Wraps.{with_dispatches, validate-fault}
use lsfg_nx.Graph.Example.{small_graph, first_pass, last_pass, wrapping_pass}

small_graph_accepted : validate small_graph ≡ go
unfolding validate check_image check_dispatch check_variant check_binding each for_range
small_graph_accepted = refl

small_graph-Addressable : Addressable small_graph
small_graph-Addressable = omega arith

validate_iff_example : (validate small_graph ≡ go) ↔ WellFormed small_graph
validate_iff_example = validate_iff small_graph small_graph-Addressable

validate-fault_example :
    validate (with_dispatches small_graph (wrapping_pass ∷ last_pass ∷ [])) ≡ fault
validate-fault_example =
    validate-fault small_graph [] (last_pass ∷ []) first_pass 0xFFFF_FFFE small_graph_accepted
      (omega arith) (omega arith) (omega arith) (omega arith) (omega arith)

-- A half-size motion pyramid.
abbrev pyramid_image : ImageDesc
pyramid_image = record {
  base = 1;
  shift_before = 1;
  ceil_halvings = 2;
  shift_after = 0;
  fixed_width = 0;
  fixed_height = 0;
  format = 0;
  role = 0;
}

pyramid_extent :
    evaluate pyramid_image
      (record { width = 1920; height = 1080 })
      (record { width = 960; height = 540 })
    ≡ record { width = 120; height = 68 }
unfolding evaluate ceil_halve
pyramid_extent = refl

-- What the modules of the two passes declare.
abbrev one_texture : ℕ → ModuleInterface
one_texture block_index = record {
  block_index = block_index;
  textures = 1;
  storage_images = 1;
  samplers = 1;
  uniform_buffers = 0;
}

abbrev small_modules : List ModuleInterface
small_modules = one_texture 1 ∷ one_texture 2 ∷ []

small_modules_accepted : check_against_modules small_graph small_modules ≡ go
unfolding check_against_modules check_interface check_declared find_interface block_index_of each
    for_range
small_modules_accepted = refl

check_against_modules_iff_example :
    (check_against_modules small_graph small_modules ≡ go)
    ↔ All (InterfaceOk small_graph small_modules) small_graph.dispatches
check_against_modules_iff_example =
    check_against_modules_iff small_graph small_modules (omega arith, (omega arith, tt))

-- A set of two blocks of 49 modules.
abbrev two_blocks : ShaderSet
two_blocks = record {
  first_resource_id = 100;
  block_size = 49;
  low_precision_block = 1;
  high_precision_block = 0;
}

required_modules-Lists_example :
    ((needed true ≤ 49)
      × ((out : List ModuleRequest) × (required_modules two_blocks Precision.low true ≡ done out)
          × Lists two_blocks Precision.low true out))
    ⊎ ((49 < needed true)
        × (required_modules two_blocks Precision.low true ≡ failed ErrorCode.shader_set_unknown))
required_modules-Lists_example = required_modules-Lists two_blocks Precision.low true
