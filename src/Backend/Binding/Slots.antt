-- ===== src/Backend/Binding/Slots.antt =====
-- binding.cpp: what one slot of an accepted binding adds.
use lsfg_nx.Base.{
  ℕ, ◌+◌, ◌≤◌, ◌<◌, ◌≡◌, ◌≢◌, inl, inr, arith, refl, sym, ◌||◌, Bool-cases, List, [], ◌∷◌, ◌++◌,
  some, leb, length, get_elem?,
}
use lsfg_nx.Outcome.{done, >>=-done, done-injective}
use lsfg_nx.Graph.{VariantEntry}
use lsfg_nx.Cache.{SlotEntry}
use lsfg_nx.Backend.Layout.{ImageDescriptors, DescriptorLayout, no_descriptor}
use lsfg_nx.Backend.Binding.{
  max_texture_slots, max_storage_slots, introduced_sampler, TextureBinding, StorageBinding,
  DispatchBinding, slot_sampler, bound_image, assigned, bind_texture, bind_storage,
}

-- The texture of a slot: an image of the variant, by the descriptor that the layout assigned, with a
-- sampler of the variant or the one that translation introduces.
pub record TextureBound (descriptors : DescriptorLayout) (variant : VariantEntry)
    (bindings : List ℕ) (slot : SlotEntry) (t : TextureBinding) : Type 0 where
  pub at_slot : t.slot ≡ slot.slot
  pub in_room : t.slot < max_texture_slots
  pub of_textures : slot.ordinal < variant.texture_count
  pub image : get_elem? bindings slot.ordinal ≡ some t.image
  pub found : ImageDescriptors
  pub laid_out : get_elem? descriptors.images t.image ≡ some found
  pub descriptor : t.descriptor ≡ found.sampled
  pub assigned : t.descriptor ≢ no_descriptor
  pub sampler : t.sampler ≤ introduced_sampler

-- The storage image of a slot.
pub record StorageBound (descriptors : DescriptorLayout) (variant : VariantEntry)
    (bindings : List ℕ) (slot : SlotEntry) (s : StorageBinding) : Type 0 where
  pub at_slot : s.slot ≡ slot.slot
  pub in_room : s.slot < max_storage_slots
  pub of_storages : slot.ordinal < variant.storage_count
  pub image : get_elem? bindings (variant.texture_count + slot.ordinal) ≡ some s.image
  pub found : ImageDescriptors
  pub laid_out : get_elem? descriptors.images s.image ≡ some found
  pub descriptor : s.descriptor ≡ found.storage
  pub assigned : s.descriptor ≢ no_descriptor

slot_sampler_bound :
    (variant : VariantEntry) (slot : SlotEntry) (sampler : ℕ)
    → slot_sampler variant slot ≡ done sampler
    → sampler ≤ introduced_sampler
unfolding slot_sampler
slot_sampler_bound variant slot sampler h = ground (arith, h)

-- The image that a binding reaches.
bound_image-done :
    (descriptors : DescriptorLayout) (bindings : List ℕ) (index image : ℕ)
    (found : ImageDescriptors)
    → bound_image descriptors bindings index ≡ done (image, found)
    → (get_elem? bindings index ≡ some image) × (get_elem? descriptors.images image ≡ some found)
unfolding bound_image
bound_image-done descriptors bindings index image found h = ground (arith, h)

assigned-done :
    (descriptor d : ℕ) → assigned descriptor ≡ done d → (d ≡ descriptor) × (d ≢ no_descriptor)
assigned-done descriptor d h = ground (arith, h)

-- What one texture slot adds to the output.
pub record AddedTexture (descriptors : DescriptorLayout) (variant : VariantEntry)
    (bindings : List ℕ) (slot : SlotEntry) (out next : DispatchBinding) : Type 0 where
  pub texture : TextureBinding
  pub is_bound : TextureBound descriptors variant bindings slot texture
  pub added : next ≡ record out { textures = out.textures ++ (texture ∷ []) }

pub bind_texture-AddedTexture :
    (descriptors : DescriptorLayout) (variant : VariantEntry) (bindings : List ℕ) (slot : SlotEntry)
    (out next : DispatchBinding)
    → bind_texture descriptors variant bindings slot out ≡ done next
    → AddedTexture descriptors variant bindings slot out next
unfolding bind_texture
bind_texture-AddedTexture descriptors variant bindings slot out next h =
    elim (Bool-cases (
      leb variant.texture_count slot.ordinal
      || leb max_texture_slots slot.slot
      || leb max_texture_slots (length out.textures))) [
        | inl outside ↦ absurd (ground (arith, h, outside))
        | inr inside ↦
            let m = rw inside at h in
            let (sampler, a, b) = (>>=-done (slot_sampler variant slot) _) m in
            let ((image, found), c, d) =
              (>>=-done (bound_image descriptors bindings slot.ordinal) _) b in
            let (descriptor, e, f) = (>>=-done (assigned found.sampled) _) d in
            let (i, j) = bound_image-done descriptors bindings slot.ordinal image found c in
            let (k, l) = assigned-done found.sampled descriptor e in
            record {
              texture = record {
                slot = slot.slot;
                image = image;
                descriptor = descriptor;
                sampler = sampler;
              };
              is_bound = record {
                at_slot = refl;
                in_room = ground (arith, inside);
                of_textures = ground (arith, inside);
                image = i;
                found = found;
                laid_out = j;
                descriptor = k;
                assigned = l;
                sampler = slot_sampler_bound variant slot sampler a;
              };
              added = sym (done-injective _ next f);
            }
      ]

-- What one storage slot adds to the output.
pub record AddedStorage (descriptors : DescriptorLayout) (variant : VariantEntry)
    (bindings : List ℕ) (slot : SlotEntry) (out next : DispatchBinding) : Type 0 where
  pub storage : StorageBinding
  pub is_bound : StorageBound descriptors variant bindings slot storage
  pub added : next ≡ record out { storages = out.storages ++ (storage ∷ []) }

pub bind_storage-AddedStorage :
    (descriptors : DescriptorLayout) (variant : VariantEntry) (bindings : List ℕ) (slot : SlotEntry)
    (out next : DispatchBinding)
    → bind_storage descriptors variant bindings slot out ≡ done next
    → AddedStorage descriptors variant bindings slot out next
unfolding bind_storage
bind_storage-AddedStorage descriptors variant bindings slot out next h =
    elim (Bool-cases (
      leb variant.storage_count slot.ordinal
      || leb max_storage_slots slot.slot
      || leb max_storage_slots (length out.storages))) [
        | inl outside ↦ absurd (ground (arith, h, outside))
        | inr inside ↦
            let m = rw inside at h in
            let index = variant.texture_count + slot.ordinal in
            let ((image, found), c, d) = (>>=-done (bound_image descriptors bindings index) _) m in
            let (descriptor, e, f) = (>>=-done (assigned found.storage) _) d in
            let (i, j) = bound_image-done descriptors bindings index image found c in
            let (k, l) = assigned-done found.storage descriptor e in
            record {
              storage = record { slot = slot.slot; image = image; descriptor = descriptor };
              is_bound = record {
                at_slot = refl;
                in_room = ground (arith, inside);
                of_storages = ground (arith, inside);
                image = i;
                found = found;
                laid_out = j;
                descriptor = k;
                assigned = l;
              };
              added = sym (done-injective _ next f);
            }
      ]
