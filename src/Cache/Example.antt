-- ===== src/Cache/Example.antt =====
-- A small cache for the tests: the modules of the two passes of the small graph.
use lsfg_nx.Base.{ℕ, List, [], ◌∷◌, replicate}
use lsfg_nx.Graph.Example.{small_graph}
use lsfg_nx.Cache.{ManifestHeader, PassEntry, SlotEntry}
use lsfg_nx.Cache.Manifest.{blank_header, initialize, describe}

abbrev pub small_header : ManifestHeader
small_header = record (describe (initialize blank_header) small_graph) {
  dll_size = 1000;
  pass_count = 2;
  slot_count = 4;
  shader_block_size = 49;
}

abbrev pub pass_at : ℕ → ℕ → ℕ → PassEntry
pass_at block_index workgroup slot_first = record {
  resource_id = 300;
  block_index = block_index;
  dksh_size = 512;
  scratch_memory_bytes = 0;
  dksh_hash = replicate 32 0;
  workgroup_x = workgroup;
  workgroup_y = workgroup;
  workgroup_z = 1;
  reserved0_ = 0;
  image_count = 1;
  storage_image_count = 1;
  sampler_count = 1;
  uniform_buffer_count = 0;
  texture_slot_count = 1;
  slot_first = slot_first;
  slot_count = 2;
  register_count = 16;
  shared_memory_bytes = 0;
}

abbrev slot_of : ℕ → SlotEntry
slot_of kind = record { kind = kind; slot = 0; ordinal = 0; sampler_ordinal = 0 }

abbrev pub small_passes : List PassEntry
small_passes = pass_at 1 8 0 ∷ pass_at 2 16 2 ∷ []

abbrev pub small_slots : List SlotEntry
small_slots = slot_of 1 ∷ slot_of 2 ∷ slot_of 1 ∷ slot_of 2 ∷ []
