-- ===== src/Backend/Load/Example.antt =====
-- A small cache with its modules, and its plan, for the tests.
use lsfg_nx.Base.{ℕ, [], ◌∷◌, take, drop}
use lsfg_nx.Graph.Example.{small_graph}
use lsfg_nx.Dksh.Example.{module_of}
use lsfg_nx.Cache.{Precision}
use lsfg_nx.Cache.Example.{small_header, pass_at, small_slots}
use lsfg_nx.Cache.Store.{LoadedPass, Loaded}
use lsfg_nx.Backend.Load.{Request, Plan, ImagePlan}

abbrev pass_of : ℕ → ℕ → ℕ → LoadedPass
pass_of block_index workgroup slot_first = record {
  entry = pass_at block_index workgroup slot_first;
  slots = take 2 (drop slot_first small_slots);
  dksh = module_of 0 16 0 workgroup 0;
}

abbrev pub small_loaded : Loaded
small_loaded = record {
  header = small_header;
  passes = pass_of 1 8 0 ∷ pass_of 2 16 2 ∷ [];
  graph = small_graph;
}

abbrev pub small_request : Request
small_request = record {
  config = small_graph.config;
  precision = Precision.low;
  output = record { width = 1920; height = 1080 };
  memory_budget_bytes = 0x400_0000;
  limits = record {
    textures = 32;
    storage_images = 8;
    uniform_buffers = 1;
    workgroup_invocations = 1024;
    shared_memory_bytes = 0xC000;
  };
}

abbrev full_image : ℕ → ImagePlan
full_image role = record {
  extent = record { width = 1920; height = 1080 };
  bytes = 8294400;
  format = 0;
  role = role;
}

abbrev pub small_plan : Plan
small_plan = record {
  output = record { width = 1920; height = 1080 };
  flow = record { width = 1920; height = 1080 };
  images = full_image 1 ∷ full_image 1 ∷ full_image 2 ∷ full_image 0 ∷ [];
  dispatches =
      record { pass = 0; groups_x = 240; groups_y = 135 }
      ∷ record { pass = 1; groups_x = 120; groups_y = 68 }
      ∷ [];
  owned_image_bytes = 8294400;
  owned_images = 1;
  imported_images = 3;
  descriptor_sets = 3;
  uniform_buffers = 2;
  prepass_dispatches = 1;
  generated_frame_dispatches = 1;
  max_registers = 16;
  max_scratch_bytes_per_warp = 0;
  max_shared_memory_bytes = 0;
}
