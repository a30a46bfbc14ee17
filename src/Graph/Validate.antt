-- ===== src/Graph/Validate.antt =====
-- image_graph.cpp: `validate`. Every sum of 32-bit numbers wraps, as it does in the source.
use lsfg_nx.Base.{ℕ, ◌+◌, ◌%◌, ◌^◌, Bool, true, false, not, ◌&&◌, ◌||◌, ltb, leb, ◌==◌, length}
use lsfg_nx.Error.{ErrorCode}
use lsfg_nx.Check.{Check, ◌>>◌, reject, read, each, for_range}
use lsfg_nx.Graph.{
  ImageDesc, VariantEntry, DispatchEntry, Graph, max_generated_frames, history_image_count,
  max_dispatch_samplers, no_uniform_buffer, add32, role_history, role_generated, base_fixed,
  format_rgba16f,
}
use lsfg_nx.Graph.Shaders.{chain_slots, slot_index, invalid_slot}

abbrev pub image_count : Graph → ℕ
image_count g = length g.images % 2 ^ 32

-- `is_history != (role == ImageRole::history)`
abbrev pub differ : Bool → Bool → Bool
differ true b = not b
differ false b = b

-- The body of the loop over the images.
unfoldable pub check_image : ℕ → ℕ → ImageDesc → Check
check_image generated_frames index image =
    let is_history = ltb index history_image_count in
    let is_generated = not is_history && ltb index (history_image_count + generated_frames) in
    do
      reject (differ is_history (image.role == role_history)) ErrorCode.cache_integrity_failure
      reject (differ is_generated (image.role == role_generated)) ErrorCode.cache_integrity_failure
      reject (ltb base_fixed image.base || ltb format_rgba16f image.format)
          ErrorCode.cache_integrity_failure

-- The body of the loop over the bindings of a variant.
unfoldable pub check_binding : Graph → DispatchEntry → VariantEntry → ℕ → Check
check_binding g dispatch variant index =
    read g.bindings (add32 variant.binding_first index) λ image. do
      reject (leb (image_count g) image) ErrorCode.cache_integrity_failure
      read g.images image λ desc.
          let written = leb variant.texture_count index in
          do
            reject (written && desc.role == role_history) ErrorCode.presentation_sequence_invalid
            reject (not written && desc.role == role_generated)
                ErrorCode.presentation_sequence_invalid
            reject
                (written
                  && desc.role == role_generated
                  && not (dispatch.slot == slot_index "generate"))
                ErrorCode.presentation_sequence_invalid

abbrev pub binding_count : VariantEntry → ℕ
binding_count variant = variant.texture_count + variant.storage_count

-- The body of the loop over the variants of a dispatch.
unfoldable pub check_variant : Graph → DispatchEntry → VariantEntry → Check
check_variant g dispatch variant = do
  reject (ltb (length g.bindings) (add32 variant.binding_first (binding_count variant)))
      ErrorCode.cache_integrity_failure
  reject (ltb max_dispatch_samplers variant.sampler_count) ErrorCode.cache_integrity_failure
  reject
      (not (variant.uniform_buffer == no_uniform_buffer)
        && leb g.uniform_buffer_count variant.uniform_buffer)
      ErrorCode.cache_integrity_failure
  for_range 0 (binding_count variant) (check_binding g dispatch variant)

-- The body of the loop over the dispatches.
unfoldable pub check_dispatch : Graph → DispatchEntry → Check
check_dispatch g dispatch = do
  reject (leb (length chain_slots) dispatch.slot || leb (image_count g) dispatch.grid_image)
      ErrorCode.cache_integrity_failure
  reject
      (dispatch.variant_count == 0
        || ltb (length g.variants) (add32 dispatch.variant_first dispatch.variant_count))
      ErrorCode.cache_integrity_failure
  reject (ltb g.config.generated_frames dispatch.stage) ErrorCode.cache_integrity_failure
  for_range 0 dispatch.variant_count
      λ offset. read g.variants (add32 dispatch.variant_first offset) (check_variant g dispatch)

unfoldable pub validate : Graph → Check
validate g =
    let generated_frames = g.config.generated_frames in
    do
      reject (generated_frames == 0 || ltb max_generated_frames generated_frames)
          ErrorCode.invalid_argument
      reject
          (leb (image_count g) (history_image_count + generated_frames) || length g.dispatches == 0)
          ErrorCode.cache_integrity_failure
      for_range 0 (image_count g) λ index. read g.images index (check_image generated_frames index)
      reject (slot_index "generate" == invalid_slot) ErrorCode.invalid_state
      each g.dispatches (check_dispatch g)
