-- ===== src/Cache/Validate.antt =====
-- cache_format.cpp: the three functions `validate`. Every sum of 32-bit numbers wraps, as it does in
-- the source.
use lsfg_nx.Base.{
  ℕ, ◌%◌, ◌^◌, Bool, not, ◌&&◌, ◌||◌, List, [], ◌∷◌, Option, none, some, ltb, leb, ◌==◌,
  if◌then◌else◌, length,
}
use lsfg_nx.Error.{ErrorCode}
use lsfg_nx.Check.{Check, go, stop, fault, ◌>>◌, reject, read, each, for_range}
use lsfg_nx.Graph.{Graph, DispatchEntry, VariantEntry, add32}
use lsfg_nx.Graph.Modules.{block_index_of, uniform_buffers}
use lsfg_nx.Graph.Validate.{validate as validate_graph}
use lsfg_nx.Cache.{
  ManifestHeader, PassEntry, SlotEntry, manifest_magic, abi_version, extractor_version,
  graph_version, max_passes, max_slots, max_images, max_dispatches, max_variants, max_bindings,
  kind_uniform_buffer, kind_texture, kind_storage_image, introduced_sampler,
}

-- `count == 0 || count > most`
abbrev pub out_of_range : ℕ → ℕ → Bool
out_of_range count most = count == 0 || ltb most count

unfoldable pub validate_header : ManifestHeader → Check
validate_header header = do
  reject (not (header.magic == manifest_magic)) ErrorCode.cache_integrity_failure
  reject (not (header.abi_version == abi_version)) ErrorCode.cache_version_mismatch
  reject
      (not (header.extractor_version == extractor_version)
        || not (header.graph_version == graph_version))
      ErrorCode.cache_version_mismatch
  reject (header.dll_size == 0) ErrorCode.cache_integrity_failure
  reject (out_of_range header.pass_count max_passes) ErrorCode.cache_integrity_failure
  reject (out_of_range header.slot_count max_slots) ErrorCode.cache_integrity_failure
  reject (out_of_range header.image_count max_images) ErrorCode.cache_integrity_failure
  reject (out_of_range header.dispatch_count max_dispatches) ErrorCode.cache_integrity_failure
  reject (out_of_range header.variant_count max_variants) ErrorCode.cache_integrity_failure
  reject (out_of_range header.binding_count max_bindings) ErrorCode.cache_integrity_failure
  reject (header.shader_block_size == 0 || ltb 1 header.shader_precision)
      ErrorCode.shader_set_unknown
  reject
      (header.flow_numerator == 0
        || header.flow_denominator == 0
        || ltb header.flow_denominator header.flow_numerator)
      ErrorCode.cache_integrity_failure

unfoldable pub validate_pass : PassEntry → Check
validate_pass entry = do
  reject (entry.dksh_size == 0) ErrorCode.cache_integrity_failure
  reject (entry.workgroup_x == 0 || entry.workgroup_y == 0 || entry.workgroup_z == 0)
      ErrorCode.shader_interface_mismatch
  reject (entry.slot_count == 0) ErrorCode.shader_interface_mismatch
  reject
      (not (
        entry.slot_count
        == add32 (add32 entry.texture_slot_count entry.storage_image_count)
            entry.uniform_buffer_count))
      ErrorCode.shader_interface_mismatch
  reject (ltb entry.texture_slot_count entry.image_count) ErrorCode.shader_interface_mismatch

-- The `switch` on the kind of a slot.
unfoldable pub check_slot : PassEntry → SlotEntry → Check
check_slot entry slot =
    if slot.kind == kind_uniform_buffer
    then reject
        (leb entry.uniform_buffer_count slot.slot || leb entry.uniform_buffer_count slot.ordinal)
        ErrorCode.shader_interface_mismatch
    else if slot.kind == kind_texture
    then (reject (leb entry.texture_slot_count slot.slot || leb entry.image_count slot.ordinal)
          ErrorCode.shader_interface_mismatch
        >> reject
            (not (slot.sampler_ordinal == introduced_sampler)
              && leb entry.sampler_count slot.sampler_ordinal)
            ErrorCode.shader_interface_mismatch)
    else if slot.kind == kind_storage_image
    then reject
        (leb entry.storage_image_count slot.slot || leb entry.storage_image_count slot.ordinal)
        ErrorCode.shader_interface_mismatch
    else stop ErrorCode.shader_interface_mismatch

-- The body of the loop over the passes.
unfoldable pub check_pass : List SlotEntry → PassEntry → Check
check_pass slots entry = do
  validate_pass entry
  reject (ltb (length slots) (add32 entry.slot_first entry.slot_count))
      ErrorCode.cache_integrity_failure
  for_range 0 entry.slot_count λ index. read slots (add32 entry.slot_first index) (check_slot entry)

-- The loop that looks for the module of a block.
unfoldable pub find_module : List PassEntry → ℕ → Option PassEntry
find_module [] block_index = none
find_module (entry ∷ passes) block_index =
    let rest = find_module passes block_index in
    if entry.block_index == block_index then some entry else rest

-- The body of the loop over the variants of a dispatch.
unfoldable pub check_binds : PassEntry → VariantEntry → Check
check_binds entry variant =
    reject
      (not (variant.texture_count == entry.image_count)
        || not (variant.storage_count == entry.storage_image_count)
        || not (variant.sampler_count == entry.sampler_count)
        || not (uniform_buffers variant == entry.uniform_buffer_count))
      ErrorCode.shader_interface_mismatch

-- What follows for a dispatch when its module is found. A shift by 32 or more has no behaviour, nor
-- has a division by 0.
unfoldable pub check_module : Graph → DispatchEntry → PassEntry → Check
check_module g dispatch entry =
    let tile = 2 ^ dispatch.grid_shift in
    do
      reject (not (entry.workgroup_z == 1) || not (entry.workgroup_x == entry.workgroup_y))
          ErrorCode.shader_interface_mismatch
      if entry.workgroup_x == 0 then fault else go
      reject (ltb tile entry.workgroup_x || not (tile % entry.workgroup_x == 0))
          ErrorCode.shader_interface_mismatch
      for_range 0 dispatch.variant_count
          λ offset. read g.variants (add32 dispatch.variant_first offset) (check_binds entry)

-- The body of the loop over the dispatches.
unfoldable pub check_runs : Graph → List PassEntry → DispatchEntry → Check
check_runs g passes dispatch =
    if leb 32 dispatch.grid_shift
    then fault
    else elim (find_module passes (block_index_of g dispatch)) [
      | none ↦ stop ErrorCode.cache_integrity_failure
      | some entry ↦ check_module g dispatch entry
    ]

unfoldable pub validate : ManifestHeader → List PassEntry → List SlotEntry → Graph → Check
validate header passes slots g = do
  validate_header header
  reject (not (length passes == header.pass_count) || not (length slots == header.slot_count))
      ErrorCode.cache_integrity_failure
  each passes (check_pass slots)
  validate_graph g
  reject
      (not (header.image_count == length g.images)
        || not (header.dispatch_count == length g.dispatches)
        || not (header.variant_count == length g.variants)
        || not (header.binding_count == length g.bindings)
        || not (header.uniform_buffer_count == g.uniform_buffer_count))
      ErrorCode.cache_integrity_failure
  each g.dispatches (check_runs g passes)
