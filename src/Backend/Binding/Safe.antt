-- ===== src/Backend/Binding/Safe.antt =====
-- binding.cpp: `bind` reads within its arrays.
use lsfg_nx.Base.{
  ℕ, ◌+◌, ◌≤◌, ◌<◌, inl, inr, arith, Bool-cases, List, [], ◌∷◌, leb, ◌==◌, ◌||◌, length,
  length-drop, get_elem?-total, All, All-get_elem?,
}
use lsfg_nx.Error.{ErrorCode}
use lsfg_nx.Outcome.{Safe, failed-Safe, done-Safe, Safe-bind, Safe-if, Safe-guard}
use lsfg_nx.Graph.{VariantEntry, DispatchEntry}
use lsfg_nx.Cache.{SlotEntry, PassEntry, kind_texture, kind_storage_image, kind_uniform_buffer}
use lsfg_nx.Cache.Store.{LoadedPass, Loaded}
use lsfg_nx.Backend.Layout.{DescriptorLayout}
use lsfg_nx.Backend.Load.{Plan}
use lsfg_nx.Backend.Binding.{
  max_texture_slots, max_storage_slots, DispatchBinding, slot_sampler, bound_image, assigned,
  bind_texture, bind_storage, bind_uniform, bind_slot, bind_slots, variant_at, check_pass,
  bindings_of, planned_at, unbound, check_counts, bind,
}
use lsfg_nx.Backend.Binding.Bound.{bindings_of-done, variant_at-done}

-- A variant that counts no more samplers than it has room for.
abbrev pub HasSamplers : VariantEntry → Type 0
HasSamplers variant = variant.sampler_count ≤ length variant.samplers

slot_sampler-Safe :
    (variant : VariantEntry) (slot : SlotEntry)
    → HasSamplers variant
    → Safe (slot_sampler variant slot)
unfolding slot_sampler
slot_sampler-Safe variant slot room e =
    elim (Bool-cases (leb variant.sampler_count slot.sampler_ordinal)) [
      | inl outside ↦ ground (arith, e, outside)
      | inr inside ↦
          let (sampler, held) =
            get_elem?-total variant.samplers slot.sampler_ordinal (ground (arith, room, inside)) in
          ground (arith, e, inside, held)
    ]

bound_image-Safe :
    (descriptors : DescriptorLayout) (bindings : List ℕ) (index : ℕ)
    → index < length bindings
    → Safe (bound_image descriptors bindings index)
unfolding bound_image
bound_image-Safe descriptors bindings index inside e =
    let (image, held) = get_elem?-total bindings index inside in ground (arith, e, held)

-- The bindings are as many as the variant says.
abbrev HasBindings : VariantEntry → List ℕ → Type 0
HasBindings variant bindings = variant.texture_count + variant.storage_count ≤ length bindings

assigned-Safe : (descriptor : ℕ) → Safe (assigned descriptor)
assigned-Safe descriptor e = ground (arith, e)

module _ (plan : Plan) (descriptors : DescriptorLayout) (variant : VariantEntry) (bindings : List ℕ)
    (room : HasSamplers variant) (enough : HasBindings variant bindings) where
  bind_texture-Safe :
      (slot : SlotEntry) (out : DispatchBinding)
      → Safe (bind_texture descriptors variant bindings slot out)
  unfolding bind_texture
  bind_texture-Safe slot out =
      Safe-guard
        (leb variant.texture_count slot.ordinal
          || leb max_texture_slots slot.slot
          || leb max_texture_slots (length out.textures))
        ErrorCode.shader_interface_mismatch _
        λ inside.
          Safe-bind (slot_sampler variant slot) _ (slot_sampler-Safe variant slot room) λ sampler _.
            Safe-bind (bound_image descriptors bindings slot.ordinal) _
              (bound_image-Safe descriptors bindings slot.ordinal (ground (arith, inside, enough)))
              λ p _.
                Safe-bind (assigned p.1.sampled) _ (assigned-Safe p.1.sampled) λ d _. done-Safe _

  bind_storage-Safe :
      (slot : SlotEntry) (out : DispatchBinding)
      → Safe (bind_storage descriptors variant bindings slot out)
  unfolding bind_storage
  bind_storage-Safe slot out =
      let index = variant.texture_count + slot.ordinal in
      Safe-guard
        (leb variant.storage_count slot.ordinal
          || leb max_storage_slots slot.slot
          || leb max_storage_slots (length out.storages))
        ErrorCode.shader_interface_mismatch _
        λ inside.
          Safe-bind (bound_image descriptors bindings index) _
            (bound_image-Safe descriptors bindings index (ground (arith, inside, enough)))
            λ p _. Safe-bind (assigned p.1.storage) _ (assigned-Safe p.1.storage) λ d _. done-Safe _

  bind_uniform-Safe :
      (slot : SlotEntry) (out : DispatchBinding) → Safe (bind_uniform plan variant slot out)
  unfolding bind_uniform
  bind_uniform-Safe slot out e = ground (arith, e)

  bind_slot-Safe :
      (slot : SlotEntry) (out : DispatchBinding)
      → Safe (bind_slot plan descriptors variant bindings slot out)
  unfolding bind_slot
  bind_slot-Safe slot out =
      Safe-if (slot.kind == kind_texture) _ _ (λ h. bind_texture-Safe slot out)
        λ h.
          Safe-if (slot.kind == kind_storage_image) _ _ (λ h. bind_storage-Safe slot out)
            λ h.
              Safe-if (slot.kind == kind_uniform_buffer) _ _ (λ h. bind_uniform-Safe slot out)
                (λ h. failed-Safe ErrorCode.shader_interface_mismatch)

  bind_slots-Safe :
      (slots : List SlotEntry) (out : DispatchBinding)
      → Safe (bind_slots plan descriptors variant bindings slots out)
  unfolding bind_slots
  bind_slots-Safe [] out = done-Safe out
  bind_slots-Safe (slot ∷ slots) out =
      Safe-bind (bind_slot plan descriptors variant bindings slot out) _ (bind_slot-Safe slot out)
        λ next _. bind_slots-Safe slots next

planned_at-Safe :
    (cache : Loaded) (plan : Plan) (descriptors : DescriptorLayout) (dispatch : ℕ)
    → Safe (planned_at cache plan descriptors dispatch)
unfolding planned_at
planned_at-Safe cache plan descriptors dispatch e = ground (arith, e)

variant_at-Safe :
    (cache : Loaded) (entry : DispatchEntry) (phase : ℕ) → Safe (variant_at cache entry phase)
unfolding variant_at
variant_at-Safe cache entry phase e = ground (arith, e)

check_pass-Safe : (pass : LoadedPass) (variant : VariantEntry) → Safe (check_pass pass variant)
unfolding check_pass
check_pass-Safe pass variant e = ground (arith, e)

bindings_of-Safe :
    (bindings : List ℕ) (variant : VariantEntry) → Safe (bindings_of bindings variant)
unfolding bindings_of
bindings_of-Safe bindings variant e = ground (arith, e)

check_counts-Safe : (entry : PassEntry) (out : DispatchBinding) → Safe (check_counts entry out)
unfolding check_counts
check_counts-Safe entry out e = ground (arith, e)

-- Where no variant of the graph counts more samplers than it has room for, `bind` reads no array
-- outside its bounds, whatever the plan, the layout, the dispatch and the phase are.
pub bind-Safe :
    (cache : Loaded) (plan : Plan) (descriptors : DescriptorLayout) (dispatch phase : ℕ)
    → All HasSamplers cache.graph.variants
    → Safe (bind cache plan descriptors dispatch phase)
unfolding bind
bind-Safe cache plan descriptors dispatch phase rooms =
    Safe-bind (planned_at cache plan descriptors dispatch) _
      (planned_at-Safe cache plan descriptors dispatch)
      λ (entry, planned, pass) _.
        Safe-bind (variant_at cache entry phase) _ (variant_at-Safe cache entry phase)
          λ (index, variant) at.
            Safe-bind (check_pass pass variant) _ (check_pass-Safe pass variant) λ _ _.
              Safe-bind (bindings_of cache.graph.bindings variant) _
                (bindings_of-Safe cache.graph.bindings variant)
                λ bindings taken.
                  let (_, held) = variant_at-done cache entry phase index variant at in
                  let (from, enough) =
                    bindings_of-done cache.graph.bindings variant bindings taken in
                  Safe-bind
                    (bind_slots plan descriptors variant bindings pass.slots
                      (unbound index planned))
                    _
                    (bind_slots-Safe plan descriptors variant bindings
                      (All-get_elem? HasSamplers cache.graph.variants index variant rooms held)
                      (rw from (
                        omega
                          (arith, enough, length-drop variant.binding_first cache.graph.bindings)))
                      pass.slots (unbound index planned))
                    λ out _. check_counts-Safe pass.entry out
