-- ===== src/Backend/Binding/Loop.antt =====
-- binding.cpp: the slots of an accepted binding.
use lsfg_nx.Base.{
  ℕ, ◌<◌, ◌≡◌, ◌≢◌, ◌⊎◌, inl, inr, arith, refl, ap, sym, subst, ◌∙◌, not, ◌||◌, Bool-cases, ==_iff,
  List, [], ◌∷◌, ◌++◌, append_assoc, append-nil, leb, ◌==◌,
}
use lsfg_nx.Outcome.{done, >>=-done, done-injective}
use lsfg_nx.Graph.{VariantEntry, no_uniform_buffer}
use lsfg_nx.Cache.{SlotEntry, kind_texture, kind_storage_image, kind_uniform_buffer}
use lsfg_nx.Backend.Layout.{DescriptorLayout}
use lsfg_nx.Backend.Load.{Plan}
use lsfg_nx.Backend.Binding.{
  no_slot, TextureBinding, StorageBinding, DispatchBinding, bind_uniform, bind_slot, bind_slots,
}
use lsfg_nx.Backend.Binding.Slots.{
  TextureBound, StorageBound, AddedTexture, AddedStorage, bind_texture-AddedTexture,
  bind_storage-AddedStorage,
}

-- The slots of a module with the textures and the storage images bound to them, in their order.
pub data Holds (descriptors : DescriptorLayout) (variant : VariantEntry) (bindings : List ℕ)
    : List SlotEntry → List TextureBinding → List StorageBinding → Type 0 where
  empty : Holds descriptors variant bindings [] [] []
  texture :
      {slot : SlotEntry} {slots : List SlotEntry} {t : TextureBinding} {ts : List TextureBinding}
      {ss : List StorageBinding}
      → slot.kind ≡ kind_texture
      → TextureBound descriptors variant bindings slot t
      → Holds descriptors variant bindings slots ts ss
      → Holds descriptors variant bindings (slot ∷ slots) (t ∷ ts) ss
  storage :
      {slot : SlotEntry} {slots : List SlotEntry} {s : StorageBinding} {ts : List TextureBinding}
      {ss : List StorageBinding}
      → slot.kind ≡ kind_storage_image
      → StorageBound descriptors variant bindings slot s
      → Holds descriptors variant bindings slots ts ss
      → Holds descriptors variant bindings (slot ∷ slots) ts (s ∷ ss)
  uniform :
      {slot : SlotEntry} {slots : List SlotEntry} {ts : List TextureBinding}
      {ss : List StorageBinding}
      → slot.kind ≡ kind_uniform_buffer
      → Holds descriptors variant bindings slots ts ss
      → Holds descriptors variant bindings (slot ∷ slots) ts ss

-- The uniform buffer of an output: none, or that of the variant, which is one of the plan's.
abbrev pub UniformBound : Plan → VariantEntry → DispatchBinding → Type 0
UniformBound plan variant out =
    (out.uniform_slot ≡ no_slot)
    ⊎ ((out.uniform_buffer ≡ variant.uniform_buffer)
        × (variant.uniform_buffer ≢ no_uniform_buffer)
        × (variant.uniform_buffer < plan.uniform_buffers))

-- The module and the groups of an output.
abbrev pub SameTarget : DispatchBinding → DispatchBinding → Type 0
SameTarget out next =
    (next.pass ≡ out.pass)
    × (next.variant ≡ out.variant)
    × (next.groups_x ≡ out.groups_x)
    × (next.groups_y ≡ out.groups_y)

-- What the slots left add to an output.
pub record SlotsBound (plan : Plan) (descriptors : DescriptorLayout) (variant : VariantEntry)
    (bindings : List ℕ) (slots : List SlotEntry) (out next : DispatchBinding) : Type 0 where
  pub textures : List TextureBinding
  pub storages : List StorageBinding
  pub held : Holds descriptors variant bindings slots textures storages
  pub more_textures : next.textures ≡ out.textures ++ textures
  pub more_storages : next.storages ≡ out.storages ++ storages
  pub target : SameTarget out next
  pub uniform : UniformBound plan variant next

-- The first slot's part, with what the others add.
module _ (plan : Plan) (descriptors : DescriptorLayout) (variant : VariantEntry) (bindings : List ℕ)
    (slot : SlotEntry) (slots : List SlotEntry) (out here next : DispatchBinding) where
  texture_first :
      slot.kind ≡ kind_texture
      → AddedTexture descriptors variant bindings slot out here
      → SlotsBound plan descriptors variant bindings slots here next
      → SlotsBound plan descriptors variant bindings (slot ∷ slots) out next
  texture_first kind one rest = record {
    textures = one.texture ∷ rest.textures;
    storages = rest.storages;
    held = Holds.texture kind one.is_bound rest.held;
    more_textures =
        rest.more_textures
        ∙ ap (λ o. o.textures ++ rest.textures) one.added
        ∙ append_assoc out.textures (one.texture ∷ []) rest.textures;
    more_storages = rest.more_storages ∙ ap (λ o. o.storages ++ rest.storages) one.added;
    target = subst (λ o. SameTarget o next) one.added rest.target;
    uniform = rest.uniform;
  }

  storage_first :
      slot.kind ≡ kind_storage_image
      → AddedStorage descriptors variant bindings slot out here
      → SlotsBound plan descriptors variant bindings slots here next
      → SlotsBound plan descriptors variant bindings (slot ∷ slots) out next
  storage_first kind one rest = record {
    textures = rest.textures;
    storages = one.storage ∷ rest.storages;
    held = Holds.storage kind one.is_bound rest.held;
    more_textures = rest.more_textures ∙ ap (λ o. o.textures ++ rest.textures) one.added;
    more_storages =
        rest.more_storages
        ∙ ap (λ o. o.storages ++ rest.storages) one.added
        ∙ append_assoc out.storages (one.storage ∷ []) rest.storages;
    target = subst (λ o. SameTarget o next) one.added rest.target;
    uniform = rest.uniform;
  }

  uniform_first :
      slot.kind ≡ kind_uniform_buffer
      → here ≡ record out { uniform_slot = slot.slot; uniform_buffer = variant.uniform_buffer }
      → SlotsBound plan descriptors variant bindings slots here next
      → SlotsBound plan descriptors variant bindings (slot ∷ slots) out next
  uniform_first kind added rest = record {
    textures = rest.textures;
    storages = rest.storages;
    held = Holds.uniform kind rest.held;
    more_textures = rest.more_textures ∙ ap (λ o. o.textures ++ rest.textures) added;
    more_storages = rest.more_storages ∙ ap (λ o. o.storages ++ rest.storages) added;
    target = subst (λ o. SameTarget o next) added rest.target;
    uniform = rest.uniform;
  }

bind_uniform-added :
    (plan : Plan) (variant : VariantEntry) (slot : SlotEntry) (out next : DispatchBinding)
    → bind_uniform plan variant slot out ≡ done next
    → (next ≡ record out { uniform_slot = slot.slot; uniform_buffer = variant.uniform_buffer })
      × UniformBound plan variant next
unfolding bind_uniform
bind_uniform-added plan variant slot out next h =
    elim (Bool-cases (
      variant.uniform_buffer == no_uniform_buffer
      || leb plan.uniform_buffers variant.uniform_buffer
      || not (out.uniform_slot == no_slot))) [
        | inl outside ↦ absurd (ground (arith, h, outside))
        | inr inside ↦
            let e = done-injective _ next (rw inside at h) in
            (
              sym e,
              subst (UniformBound plan variant) e
                  (inr (refl, ground (arith, inside), ground (arith, inside))),
            )
      ]

pub bind_slots-SlotsBound :
    (plan : Plan) (descriptors : DescriptorLayout) (variant : VariantEntry) (bindings : List ℕ)
    (slots : List SlotEntry) (out next : DispatchBinding)
    → UniformBound plan variant out
    → bind_slots plan descriptors variant bindings slots out ≡ done next
    → SlotsBound plan descriptors variant bindings slots out next
unfolding bind_slots bind_slot
bind_slots-SlotsBound plan descriptors variant bindings [] out next u h =
    let e = done-injective out next h in
    record {
      textures = [];
      storages = [];
      held = Holds.empty;
      more_textures = ap (λ o. o.textures) (sym e) ∙ sym (append-nil out.textures);
      more_storages = ap (λ o. o.storages) (sym e) ∙ sym (append-nil out.storages);
      target = subst (SameTarget out) e (refl, refl, refl, refl);
      uniform = subst (UniformBound plan variant) e u;
    }
bind_slots-SlotsBound plan descriptors variant bindings (slot ∷ slots) out next u h =
    let (here, a, b) =
      (>>=-done (bind_slot plan descriptors variant bindings slot out)
          (bind_slots plan descriptors variant bindings slots))
        h in
    let rest : UniformBound plan variant here
        → SlotsBound plan descriptors variant bindings slots here next =
      λ v. bind_slots-SlotsBound plan descriptors variant bindings slots here next v b in
    elim (Bool-cases (slot.kind == kind_texture)) [
      | inl k ↦
          let one =
            bind_texture-AddedTexture descriptors variant bindings slot out here (rw k at a) in
          texture_first plan descriptors variant bindings slot slots out here next
            ((==_iff slot.kind kind_texture).0 k) one
            (rest (subst (UniformBound plan variant) (sym one.added) u))
      | inr not_texture ↦ elim (Bool-cases (slot.kind == kind_storage_image)) [
        | inl k ↦
            let one =
              bind_storage-AddedStorage descriptors variant bindings slot out here
                (rw (not_texture, k) at a) in
            storage_first plan descriptors variant bindings slot slots out here next
              ((==_iff slot.kind kind_storage_image).0 k) one
              (rest (subst (UniformBound plan variant) (sym one.added) u))
        | inr not_storage ↦ elim (Bool-cases (slot.kind == kind_uniform_buffer)) [
          | inl k ↦
              let (e, v) =
                bind_uniform-added plan variant slot out here
                  (rw (not_texture, not_storage, k) at a) in
              uniform_first plan descriptors variant bindings slot slots out here next
                ((==_iff slot.kind kind_uniform_buffer).0 k) e (rest v)
          | inr not_uniform ↦ absurd (ground (arith, a, not_texture, not_storage, not_uniform))
        ]
      ]
    ]
