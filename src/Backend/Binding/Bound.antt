-- ===== src/Backend/Binding/Bound.antt =====
-- binding.cpp: what an accepted binding holds.
use lsfg_nx.Base.{
  ℕ, ◌+◌, ◌%◌, ◌^◌, ◌≤◌, ◌≡◌, inl, arith, refl, sym, subst, ◌∙◌, List, some, length, get_elem?,
  drop,
}
use lsfg_nx.Outcome.{done, >>=-done}
use lsfg_nx.Graph.{VariantEntry, DispatchEntry}
use lsfg_nx.Cache.{PassEntry}
use lsfg_nx.Cache.Store.{LoadedPass, Loaded}
use lsfg_nx.Backend.Layout.{DescriptorLayout}
use lsfg_nx.Backend.Load.{DispatchPlan, Plan}
use lsfg_nx.Backend.Binding.{
  max_texture_slots, max_storage_slots, DispatchBinding, bind_slots, variant_at, check_pass,
  bindings_of, planned_at, unbound, check_counts, bind,
}
use lsfg_nx.Backend.Binding.Loop.{Holds, UniformBound, bind_slots-SlotsBound}

-- A dispatch at a phase, and what it binds.
pub record Bound (cache : Loaded) (plan : Plan) (descriptors : DescriptorLayout)
    (dispatch phase : ℕ) (out : DispatchBinding) : Type 0 where
  pub entry : DispatchEntry
  pub is_entry : get_elem? cache.graph.dispatches dispatch ≡ some entry
  pub planned : DispatchPlan
  pub is_planned : get_elem? plan.dispatches dispatch ≡ some planned
  pub pass : LoadedPass
  pub is_pass : get_elem? cache.passes planned.pass ≡ some pass
  pub turn : out.variant ≡ (entry.variant_first + phase % entry.variant_count) % 2 ^ 32
  pub variant : VariantEntry
  pub is_variant : get_elem? cache.graph.variants out.variant ≡ some variant
  pub target :
      (out.pass ≡ planned.pass)
      × (out.groups_x ≡ planned.groups_x)
      × (out.groups_y ≡ planned.groups_y)
  pub held :
      Holds descriptors variant
        (drop variant.binding_first cache.graph.bindings)
        pass.slots
        out.textures
        out.storages
  pub texture_count : length out.textures ≡ pass.entry.texture_slot_count
  pub texture_room : length out.textures ≤ max_texture_slots
  pub storage_count : length out.storages ≡ variant.storage_count
  pub storage_room : length out.storages ≤ max_storage_slots
  pub uniform : UniformBound plan variant out

planned_at-done :
    (cache : Loaded) (plan : Plan) (descriptors : DescriptorLayout) (dispatch : ℕ)
    (entry : DispatchEntry) (planned : DispatchPlan) (pass : LoadedPass)
    → planned_at cache plan descriptors dispatch ≡ done (entry, planned, pass)
    → (get_elem? cache.graph.dispatches dispatch ≡ some entry)
      × (get_elem? plan.dispatches dispatch ≡ some planned)
      × (get_elem? cache.passes planned.pass ≡ some pass)
unfolding planned_at
planned_at-done cache plan descriptors dispatch entry planned pass h = ground (arith, h)

pub variant_at-done :
    (cache : Loaded) (entry : DispatchEntry) (phase index : ℕ) (variant : VariantEntry)
    → variant_at cache entry phase ≡ done (index, variant)
    → (index ≡ (entry.variant_first + phase % entry.variant_count) % 2 ^ 32)
      × (get_elem? cache.graph.variants index ≡ some variant)
unfolding variant_at
variant_at-done cache entry phase index variant h = ground (arith, h)

check_pass-done :
    (pass : LoadedPass) (variant : VariantEntry)
    → check_pass pass variant ≡ done tt
    → (pass.entry.storage_image_count ≡ variant.storage_count)
      × (pass.entry.texture_slot_count ≤ max_texture_slots)
      × (pass.entry.storage_image_count ≤ max_storage_slots)
unfolding check_pass
check_pass-done pass variant h = ground (arith, h)

check_counts-done :
    (entry : PassEntry) (out next : DispatchBinding)
    → check_counts entry out ≡ done next
    → (next ≡ out)
      × (length out.textures ≡ entry.texture_slot_count)
      × (length out.storages ≡ entry.storage_image_count)
unfolding check_counts
check_counts-done entry out next h = ground (arith, h)

pub bindings_of-done :
    (bindings : List ℕ) (variant : VariantEntry) (rest : List ℕ)
    → bindings_of bindings variant ≡ done rest
    → (rest ≡ drop variant.binding_first bindings)
      × (variant.binding_first + (variant.texture_count + variant.storage_count) ≤ length bindings)
unfolding bindings_of
bindings_of-done bindings variant rest h = ground (arith, h)

-- What an accepted `bind` leaves: the pass and the groups that the plan has for the dispatch, the
-- variant whose turn it is at the phase, and for each slot of the pass, in their order, the texture or
-- storage image that the variant binds to it, by the descriptor that the layout has assigned, all
-- within the room of the executor and as many as the module's interface says.
pub bind-Bound :
    (cache : Loaded) (plan : Plan) (descriptors : DescriptorLayout) (dispatch phase : ℕ)
    (out : DispatchBinding)
    → bind cache plan descriptors dispatch phase ≡ done out
    → Bound cache plan descriptors dispatch phase out
unfolding bind
bind-Bound cache plan descriptors dispatch phase out h =
    let ((entry, planned, pass), a, b) =
      (>>=-done (planned_at cache plan descriptors dispatch) _) h in
    let ((index, variant), c, d) = (>>=-done (variant_at cache entry phase) _) b in
    let (t, e, f) = (>>=-done (check_pass pass variant) _) d in
    let (bindings, g, i) = (>>=-done (bindings_of cache.graph.bindings variant) _) f in
    let start = unbound index planned in
    let (filled, j, k) =
      (>>=-done (bind_slots plan descriptors variant bindings pass.slots start)
          (check_counts pass.entry))
        i in
    let (same, textures, storages) = check_counts-done pass.entry filled out k in
    let (is_entry, is_planned, is_pass) =
      planned_at-done cache plan descriptors dispatch entry planned pass a in
    let (turn, is_variant) = variant_at-done cache entry phase index variant c in
    let (like, texture_room, storage_room) = check_pass-done pass variant e in
    let (from, _) = bindings_of-done cache.graph.bindings variant bindings g in
    let s =
      bind_slots-SlotsBound plan descriptors variant bindings pass.slots start filled (inl refl)
        j in
    let (p, v, x, y) = s.target in
    let held : Holds descriptors variant bindings pass.slots filled.textures filled.storages =
      subst (λ ts. Holds descriptors variant bindings pass.slots ts filled.storages)
        (sym s.more_textures)
        (subst (Holds descriptors variant bindings pass.slots s.textures) (sym s.more_storages)
          s.held) in
    subst (Bound cache plan descriptors dispatch phase) (sym same) (record {
      entry = entry;
      is_entry = is_entry;
      planned = planned;
      is_planned = is_planned;
      pass = pass;
      is_pass = is_pass;
      turn = v ∙ turn;
      variant = variant;
      is_variant = subst (λ n. get_elem? cache.graph.variants n ≡ some variant) (sym v) is_variant;
      target = (p, x, y);
      held =
          subst (λ bs. Holds descriptors variant bs pass.slots filled.textures filled.storages) from
            held;
      texture_count = textures;
      texture_room = omega (arith, textures, texture_room);
      storage_count = storages ∙ like;
      storage_room = omega (arith, storages, storage_room);
      uniform = s.uniform;
    })
