-- ===== src/Backend/Binding/Tests.antt =====
-- The theorems on binding.cpp at a small cache.
use lsfg_nx.Base.{◌≡◌, refl, arith, [], ◌∷◌}
use lsfg_nx.Outcome.{done, Safe}
use lsfg_nx.Backend.Layout.{
  DescriptorLayout, no_descriptor, describe, mark_variants, mark_variant, mark_bindings,
  mark_binding, assign,
}
use lsfg_nx.Backend.Load.Example.{small_loaded, small_plan}
use lsfg_nx.Backend.Binding.{
  DispatchBinding, no_slot, slot_sampler, bound_image, bind_texture, bind_storage, bind_uniform,
  bind_slot, bind_slots, variant_at, check_pass, bindings_of, planned_at, check_counts, bind,
}
use lsfg_nx.Backend.Binding.Bound.{Bound, bind-Bound}
use lsfg_nx.Backend.Binding.Safe.{bind-Safe}
use lsfg_nx.Backend.Binding.Issued.{AllBelow, bind-issued}

abbrev small_layout : DescriptorLayout
small_layout = record {
  images =
      record { sampled = 0; storage = no_descriptor }
      ∷ record { sampled = 1; storage = no_descriptor }
      ∷ record { sampled = no_descriptor; storage = 2 }
      ∷ record { sampled = 3; storage = 4 }
      ∷ [];
  image_descriptors = 5;
  sampled_images = 3;
  storage_images = 2;
}

abbrev small_binding : DispatchBinding
small_binding = record {
  pass = 0;
  variant = 1;
  groups_x = 240;
  groups_y = 135;
  textures = record { slot = 0; image = 1; descriptor = 1; sampler = 0 } ∷ [];
  storages = record { slot = 0; image = 3; descriptor = 4 } ∷ [];
  uniform_slot = no_slot;
  uniform_buffer = 0;
}

small_bound : bind small_loaded small_plan small_layout 0 1 ≡ done small_binding
unfolding slot_sampler bound_image bind_texture bind_storage bind_uniform bind_slot bind_slots
    variant_at check_pass bindings_of planned_at check_counts bind
small_bound = refl

bind-Bound_example : Bound small_loaded small_plan small_layout 0 1 small_binding
bind-Bound_example = bind-Bound small_loaded small_plan small_layout 0 1 small_binding small_bound

bind-Safe_example : Safe (bind small_loaded small_plan small_layout 0 1)
bind-Safe_example = bind-Safe small_loaded small_plan small_layout 0 1 (omega arith)

small_described : describe small_loaded.graph ≡ done small_layout
unfolding describe mark_variants mark_variant mark_bindings mark_binding assign
small_described = refl

bind-issued_example : AllBelow 5 small_binding.textures small_binding.storages
bind-issued_example =
    bind-issued small_loaded small_plan small_layout 0 1 small_binding (omega arith) small_described
      small_bound
