-- ===== src/Backend/Binding.antt =====
-- runtime/backend binding.hpp and binding.cpp: what one dispatch binds. What a refused call leaves in
-- its output is not modelled.
pub mod Slots
pub mod Loop
pub mod Bound
pub mod Safe
pub mod Issued
mod Tests
use lsfg_nx.Base.{
  ℕ, ◌+◌, ◌-◌, ◌%◌, ◌^◌, Bool, not, ◌&&◌, ◌||◌, List, [], ◌∷◌, ◌++◌, Option, none, some, ltb, leb,
  ◌==◌, if◌then◌else◌, length, get_elem?, drop,
}
use lsfg_nx.Error.{ErrorCode}
use lsfg_nx.Outcome.{Outcome, done, failed, faulted, ◌>>=◌, ◌>>◌}
use lsfg_nx.Graph.{DispatchEntry, VariantEntry, no_uniform_buffer}
use lsfg_nx.Graph.Modules.{uniform_buffers}
use lsfg_nx.Cache.{PassEntry, SlotEntry, kind_texture, kind_storage_image, kind_uniform_buffer}
use lsfg_nx.Cache as Cache
use lsfg_nx.Cache.Store.{LoadedPass, Loaded}
use lsfg_nx.Backend.Layout.{ImageDescriptors, DescriptorLayout, no_descriptor}
use lsfg_nx.Backend.Load.{DispatchPlan, Plan}

abbrev pub max_texture_slots : ℕ
max_texture_slots = 32

abbrev pub max_storage_slots : ℕ
max_storage_slots = 8

abbrev pub max_uniform_slots : ℕ
max_uniform_slots = 1

-- The sampler after the last of the graph's, for an image that a module only asks the size of.
abbrev pub introduced_sampler : ℕ
introduced_sampler = 3

abbrev pub no_slot : ℕ
no_slot = 0xFFFF_FFFF

pub record TextureBinding : Type 0 where
  pub slot : ℕ
  pub image : ℕ
  pub descriptor : ℕ
  pub sampler : ℕ

pub record StorageBinding : Type 0 where
  pub slot : ℕ
  pub image : ℕ
  pub descriptor : ℕ

-- The two arrays as lists of their first `texture_count` and `storage_count` entries; the counts are
-- tested against the room of the arrays before every write.
pub record DispatchBinding : Type 0 where
  pub pass : ℕ
  pub variant : ℕ
  pub groups_x : ℕ
  pub groups_y : ℕ
  pub textures : List TextureBinding
  pub storages : List StorageBinding
  pub uniform_slot : ℕ
  pub uniform_buffer : ℕ

abbrev pub same_interface : PassEntry → VariantEntry → Bool
same_interface entry variant =
    entry.image_count == variant.texture_count
    && entry.storage_image_count == variant.storage_count
    && entry.sampler_count == variant.sampler_count
    && entry.uniform_buffer_count == uniform_buffers variant

-- The sampler of a texture slot.
unfoldable pub slot_sampler : VariantEntry → SlotEntry → Outcome ℕ
slot_sampler variant slot =
    if slot.sampler_ordinal == Cache.introduced_sampler
    then done introduced_sampler
    else if leb variant.sampler_count slot.sampler_ordinal
    then failed ErrorCode.shader_interface_mismatch
    else elim (get_elem? variant.samplers slot.sampler_ordinal) [
      | none ↦ faulted
      | some sampler ↦
          if leb introduced_sampler sampler
          then failed ErrorCode.cache_integrity_failure
          else done sampler
    ]

-- The image of a binding and its descriptors.
unfoldable pub bound_image : DescriptorLayout → List ℕ → ℕ → Outcome (ℕ × ImageDescriptors)
bound_image descriptors bindings index = elim (get_elem? bindings index) [
  | none ↦ faulted
  | some image ↦ elim (get_elem? descriptors.images image) [
    | none ↦ failed ErrorCode.cache_integrity_failure
    | some found ↦ done (image, found)
  ]
]

-- A descriptor that the layout has assigned.
abbrev pub assigned : ℕ → Outcome ℕ
assigned descriptor =
    if descriptor == no_descriptor
    then failed ErrorCode.cache_integrity_failure
    else done descriptor

-- The cases of the loop over the slots: the output so far, and the bindings of the variant.
unfoldable pub bind_texture :
    DescriptorLayout → VariantEntry → List ℕ → SlotEntry → DispatchBinding → Outcome DispatchBinding
bind_texture descriptors variant bindings slot out =
    if leb variant.texture_count slot.ordinal
      || leb max_texture_slots slot.slot
      || leb max_texture_slots (length out.textures)
    then failed ErrorCode.shader_interface_mismatch
    else do
      sampler ← slot_sampler variant slot
      (image, found) ← bound_image descriptors bindings slot.ordinal
      descriptor ← assigned found.sampled
      let binding : TextureBinding = record {
        slot = slot.slot;
        image = image;
        descriptor = descriptor;
        sampler = sampler;
      }
      done (record out { textures = out.textures ++ (binding ∷ []) })

unfoldable pub bind_storage :
    DescriptorLayout → VariantEntry → List ℕ → SlotEntry → DispatchBinding → Outcome DispatchBinding
bind_storage descriptors variant bindings slot out =
    if leb variant.storage_count slot.ordinal
      || leb max_storage_slots slot.slot
      || leb max_storage_slots (length out.storages)
    then failed ErrorCode.shader_interface_mismatch
    else do
      (image, found) ← bound_image descriptors bindings (variant.texture_count + slot.ordinal)
      descriptor ← assigned found.storage
      let binding : StorageBinding = record {
        slot = slot.slot;
        image = image;
        descriptor = descriptor;
      }
      done (record out { storages = out.storages ++ (binding ∷ []) })

unfoldable pub bind_uniform :
    Plan → VariantEntry → SlotEntry → DispatchBinding → Outcome DispatchBinding
bind_uniform plan variant slot out =
    if variant.uniform_buffer == no_uniform_buffer
      || leb plan.uniform_buffers variant.uniform_buffer
      || not (out.uniform_slot == no_slot)
    then failed ErrorCode.shader_interface_mismatch
    else done (record out { uniform_slot = slot.slot; uniform_buffer = variant.uniform_buffer })

unfoldable pub bind_slot :
    Plan
    → DescriptorLayout
    → VariantEntry
    → List ℕ
    → SlotEntry
    → DispatchBinding
    → Outcome DispatchBinding
bind_slot plan descriptors variant bindings slot out =
    if slot.kind == kind_texture
    then bind_texture descriptors variant bindings slot out
    else if slot.kind == kind_storage_image
    then bind_storage descriptors variant bindings slot out
    else if slot.kind == kind_uniform_buffer
    then bind_uniform plan variant slot out
    else failed ErrorCode.shader_interface_mismatch

unfoldable pub bind_slots :
    Plan
    → DescriptorLayout
    → VariantEntry
    → List ℕ
    → List SlotEntry
    → DispatchBinding
    → Outcome DispatchBinding
bind_slots plan descriptors variant bindings [] out = done out
bind_slots plan descriptors variant bindings (slot ∷ slots) out =
    bind_slot plan descriptors variant bindings slot out
    >>= bind_slots plan descriptors variant bindings slots

-- The variant of a dispatch at a phase.
unfoldable pub variant_at : Loaded → DispatchEntry → ℕ → Outcome (ℕ × VariantEntry)
variant_at cache entry phase =
    let index = (entry.variant_first + phase % entry.variant_count) % 2 ^ 32 in
    elim (get_elem? cache.graph.variants index) [
      | none ↦ failed ErrorCode.cache_integrity_failure
      | some variant ↦ done (index, variant)
    ]

-- The tests of a pass against its variant.
unfoldable pub check_pass : LoadedPass → VariantEntry → Outcome (Unit {0})
check_pass pass variant =
    let entry = pass.entry in
    if not (same_interface entry variant)
    then failed ErrorCode.shader_interface_mismatch
    else if ltb max_texture_slots entry.texture_slot_count
        || ltb max_storage_slots entry.storage_image_count
        || ltb max_uniform_slots entry.uniform_buffer_count
    then failed ErrorCode.shader_interface_mismatch
    else if not (length pass.slots == entry.slot_count)
    then failed ErrorCode.cache_integrity_failure
    else done tt

-- The bindings of a variant: `cache.graph.bindings.data() + variant.binding_first`.
unfoldable pub bindings_of : List ℕ → VariantEntry → Outcome (List ℕ)
bindings_of bindings variant =
    let bound = variant.texture_count + variant.storage_count in
    if ltb (length bindings) variant.binding_first
      || ltb (length bindings - variant.binding_first) bound
    then failed ErrorCode.cache_integrity_failure
    else done (drop variant.binding_first bindings)

-- The dispatch of an index, with its plan and the pass that the plan names.
unfoldable pub planned_at :
    Loaded → Plan → DescriptorLayout → ℕ → Outcome (DispatchEntry × DispatchPlan × LoadedPass)
planned_at cache plan descriptors dispatch = elim (get_elem? cache.graph.dispatches dispatch) [
  | none ↦ failed ErrorCode.invalid_argument
  | some entry ↦ elim (get_elem? plan.dispatches dispatch) [
    | none ↦ failed ErrorCode.invalid_argument
    | some planned ↦
        if not (length descriptors.images == length cache.graph.images)
        then failed ErrorCode.invalid_argument
        else if entry.variant_count == 0
        then failed ErrorCode.cache_integrity_failure
        else elim (get_elem? cache.passes planned.pass) [
          | none ↦ failed ErrorCode.cache_integrity_failure
          | some pass ↦ done (entry, planned, pass)
        ]
  ]
]

-- The output that the loop over the slots starts from.
abbrev pub unbound : ℕ → DispatchPlan → DispatchBinding
unbound variant planned = record {
  pass = planned.pass;
  variant = variant;
  groups_x = planned.groups_x;
  groups_y = planned.groups_y;
  textures = [];
  storages = [];
  uniform_slot = no_slot;
  uniform_buffer = 0;
}

-- The last test: as many bindings as the module has slots for.
unfoldable pub check_counts : PassEntry → DispatchBinding → Outcome DispatchBinding
check_counts entry out =
    if not (length out.textures == entry.texture_slot_count)
      || not (length out.storages == entry.storage_image_count)
    then failed ErrorCode.shader_interface_mismatch
    else done out

unfoldable pub bind : Loaded → Plan → DescriptorLayout → ℕ → ℕ → Outcome DispatchBinding
bind cache plan descriptors dispatch phase = do
  (entry, planned, pass) ← planned_at cache plan descriptors dispatch
  (index, variant) ← variant_at cache entry phase
  check_pass pass variant
  bindings ← bindings_of cache.graph.bindings variant
  out ← bind_slots plan descriptors variant bindings pass.slots (unbound index planned)
  check_counts pass.entry out
