-- ===== src/Graph/Modules.antt =====
-- image_graph.cpp: the modules that a graph's dispatches run, and what they declare.
use lsfg_nx.Base.{ℕ, not, ◌||◌, List, [], ◌∷◌, Option, none, some, ◌==◌, if◌then◌else◌, get_elem?}
use lsfg_nx.Error.{ErrorCode}
use lsfg_nx.Check.{Check, stop, ◌>>◌, reject, read, each, for_range}
use lsfg_nx.Graph.{Graph, DispatchEntry, VariantEntry, no_uniform_buffer, add32}
use lsfg_nx.Graph.Shaders.{chain_slots, block_of}

abbrev pub invalid_block_index : ℕ
invalid_block_index = 0xFFFF_FFFF

unfoldable pub block_index_of : Graph → DispatchEntry → ℕ
block_index_of g dispatch = elim (get_elem? chain_slots dispatch.slot) [
  | none ↦ invalid_block_index
  | some slot ↦ block_of g.config.performance slot
]

pub record ModuleInterface : Type 0 where
  pub block_index : ℕ
  pub textures : ℕ
  pub storage_images : ℕ
  pub samplers : ℕ
  pub uniform_buffers : ℕ

abbrev pub uniform_buffers : VariantEntry → ℕ
uniform_buffers variant = if variant.uniform_buffer == no_uniform_buffer then 0 else 1

-- `std::ranges::find_if`
unfoldable pub find_interface : List ModuleInterface → ℕ → Option ModuleInterface
find_interface [] block_index = none
find_interface (entry ∷ modules) block_index =
    let rest = find_interface modules block_index in
    if entry.block_index == block_index then some entry else rest

-- The body of the loop over the variants of a dispatch.
unfoldable pub check_declared : ModuleInterface → VariantEntry → Check
check_declared entry variant =
    reject
      (not (variant.texture_count == entry.textures)
        || not (variant.storage_count == entry.storage_images)
        || not (variant.sampler_count == entry.samplers)
        || not (uniform_buffers variant == entry.uniform_buffers))
      ErrorCode.shader_interface_mismatch

-- The body of the loop over the dispatches.
unfoldable pub check_interface : Graph → List ModuleInterface → DispatchEntry → Check
check_interface g modules dispatch = do
  reject (block_index_of g dispatch == invalid_block_index) ErrorCode.cache_integrity_failure
  elim (find_interface modules (block_index_of g dispatch)) [
    | none ↦ stop ErrorCode.shader_set_unknown
    | some entry ↦
        for_range 0 dispatch.variant_count
          λ offset. read g.variants (add32 dispatch.variant_first offset) (check_declared entry)
  ]

unfoldable pub check_against_modules : Graph → List ModuleInterface → Check
check_against_modules g modules = each g.dispatches (check_interface g modules)
