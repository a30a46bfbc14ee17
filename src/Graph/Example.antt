-- ===== src/Graph/Example.antt =====
-- A small graph for the tests: one pass that turns a real frame into an internal image, and the
-- pass that generates a frame from it.
use lsfg_nx.Base.{ℕ, false, [], ◌∷◌}
use lsfg_nx.Graph.{Graph, ImageDesc, VariantEntry, DispatchEntry}

abbrev image_of : ℕ → ImageDesc
image_of role = record {
  base = 0;
  shift_before = 0;
  ceil_halvings = 0;
  shift_after = 0;
  fixed_width = 0;
  fixed_height = 0;
  format = 0;
  role = role;
}

abbrev variant_at : ℕ → ℕ → VariantEntry
variant_at binding_first texture_count = record {
  binding_first = binding_first;
  texture_count = texture_count;
  storage_count = 1;
  samplers = 0 ∷ 0 ∷ [];
  sampler_count = 1;
  uniform_buffer = 255;
}

abbrev pub first_pass : DispatchEntry
first_pass = record {
  slot = 0;
  grid_image = 3;
  variant_first = 0;
  variant_count = 2;
  grid_shift = 3;
  stage = 0;
}

abbrev pub last_pass : DispatchEntry
last_pass = record {
  slot = 25;
  grid_image = 2;
  variant_first = 2;
  variant_count = 1;
  grid_shift = 4;
  stage = 1;
}

abbrev pub small_graph : Graph
small_graph = record {
  config = record {
    performance = false;
    hdr = false;
    generated_frames = 1;
    flow_numerator = 1;
    flow_denominator = 1;
  };
  images = image_of 1 ∷ image_of 1 ∷ image_of 2 ∷ image_of 0 ∷ [];
  dispatches = first_pass ∷ last_pass ∷ [];
  variants = variant_at 0 1 ∷ variant_at 2 1 ∷ variant_at 4 1 ∷ [];
  bindings = 0 ∷ 3 ∷ 1 ∷ 3 ∷ 3 ∷ 2 ∷ [];
  uniform_buffer_count = 2;
}

-- The first pass, but for an offset that makes the 32-bit sum wrap.
abbrev pub wrapping_pass : DispatchEntry
wrapping_pass = record first_pass { variant_first = 0xFFFF_FFFE }
