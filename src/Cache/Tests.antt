-- ===== src/Cache/Tests.antt =====
-- The theorems on common/cache-format at a small cache.
use lsfg_nx.Base.{◌^◌, ◌<◌, some, ℕ, ◌/◌, ◌≤◌, ◌≡◌, ◌↔◌, refl, arith, true, [], ◌∷◌}
use lsfg_nx.Check.{go, fault, each, for_range}
use lsfg_nx.Graph.{Config}
use lsfg_nx.Graph.Example.{small_graph}
use lsfg_nx.Graph.Modules.{block_index_of}
use lsfg_nx.Graph.Validate.{
  validate as validate_graph, check_image, check_binding, check_variant, check_dispatch,
}
use lsfg_nx.Graph.WellFormed.{Addressable}
use lsfg_nx.Cache.{Precision}
use lsfg_nx.Cache.Manifest.{initialize, describe, configuration}
use lsfg_nx.Cache.Options.{Packable, pack_options, configuration-describe, pack_options-injective}
use lsfg_nx.Cache.Crc.{crc32, digest_bytes, shift_bits, shift_bit, crc32-append}
use lsfg_nx.Cache.Validate.{
  validate, validate_header, validate_pass, check_slot, check_pass, find_module, check_binds,
  check_module, check_runs,
}
use lsfg_nx.Cache.Accepts.{PassOk, SlotsOk, check_pass_iff}
use lsfg_nx.Cache.Example.{small_header, pass_at, small_passes, small_slots}
use lsfg_nx.Cache.Runs.{CacheOk, validate_cache_iff}
use lsfg_nx.Hash.Reference.{reference}
use lsfg_nx.Cache.Key.{CacheKeyInputs, cache_key}
use lsfg_nx.Cache.KeyFields.{IsKey, key_bytes, cache_key-splits}
use lsfg_nx.Cache.Store.{Loaded, Contents}
use lsfg_nx.Cache.Compare.{
  same_modules, compare_caches, compare_passes, compare_pass, compare_bytes,
}
use lsfg_nx.Cache.SameModules.{Same, same_modules_iff}
use lsfg_nx.Cache.Wraps.{check_pass-fault}

small_cache_accepted : validate small_header small_passes small_slots small_graph ≡ go
unfolding describe initialize validate validate_header validate_pass check_slot check_pass
    find_module check_binds check_module check_runs each for_range block_index_of validate_graph
    check_image check_binding check_variant check_dispatch
small_cache_accepted = refl

small_graph-Addressable : Addressable small_graph
small_graph-Addressable = record {
  images_fit = omega arith;
  variants_fit = (omega arith, (omega arith, tt));
  bindings_fit = (omega arith, (omega arith, (omega arith, tt)));
}

validate_cache_iff_example :
    (validate small_header small_passes small_slots small_graph ≡ go)
    ↔ CacheOk small_header small_passes small_slots small_graph
validate_cache_iff_example =
    validate_cache_iff small_header small_passes small_slots small_graph
      (omega arith, (omega arith, tt)) small_graph-Addressable

check_pass_iff_example :
    (check_pass small_slots (pass_at 1 8 0) ≡ go)
    ↔ (PassOk (pass_at 1 8 0) × (2 ≤ 4) × SlotsOk small_slots (pass_at 1 8 0))
check_pass_iff_example = check_pass_iff small_slots (pass_at 1 8 0) (omega arith)

far_pass_in_order : PassOk (pass_at 1 8 0xFFFF_FFFF)
far_pass_in_order = record {
  dksh_size = omega arith;
  workgroup = (omega arith, omega arith, omega arith);
  some_slot = omega arith;
  slots = refl;
  images = omega arith;
}

check_pass-fault_example : check_pass small_slots (pass_at 1 8 0xFFFF_FFFF) ≡ fault
check_pass-fault_example =
    check_pass-fault small_slots (pass_at 1 8 0xFFFF_FFFF) far_pass_in_order (omega arith)
      (omega arith) (omega arith)

configuration-describe_example :
    (configuration (describe small_header small_graph) ≡ small_graph.config)
    × ((describe small_header small_graph).options / 4 ≡ small_header.options / 4)
unfolding describe initialize
configuration-describe_example = configuration-describe small_header small_graph (omega arith)

abbrev hdr_config : Config
hdr_config = record small_graph.config { hdr = true; flow_denominator = 2 }

hdr_config-Packable : Packable hdr_config
hdr_config-Packable = record {
  generated_frames = omega arith;
  flow_numerator = omega arith;
  flow_denominator = omega arith;
}

hdr_word : pack_options Precision.low hdr_config ≡ 0x2_010E
unfolding pack_options
hdr_word = refl

pack_options-injective_example : (Precision.low ≡ Precision.low) × (hdr_config ≡ hdr_config)
pack_options-injective_example =
    pack_options-injective Precision.low Precision.low hdr_config hdr_config hdr_config-Packable
      hdr_config-Packable refl

-- The ASCII digits 1 to 9, the usual check value of this checksum.
check_value : crc32 (49 ∷ 50 ∷ 51 ∷ 52 ∷ 53 ∷ 54 ∷ 55 ∷ 56 ∷ 57 ∷ []) 0 ≡ 0xCBF4_3926
unfolding crc32 digest_bytes shift_bits shift_bit
check_value = refl

crc32-append_example : crc32 (49 ∷ 50 ∷ 51 ∷ []) 0 ≡ crc32 (51 ∷ []) (crc32 (49 ∷ 50 ∷ []) 0)
crc32-append_example = crc32-append (49 ∷ 50 ∷ []) (51 ∷ []) 0 (omega arith, (omega arith, tt))

-- A cache of one module, against one that has another byte.
abbrev cached : Loaded
cached = record {
  header = small_header;
  passes = record { entry = pass_at 1 8 0; slots = []; dksh = 1 ∷ 2 ∷ [] } ∷ [];
  graph = small_graph;
}

abbrev fresh : ℕ → Contents
fresh last = record {
  header = small_header;
  passes = record { entry = pass_at 1 8 0; slots = []; dksh = 1 ∷ last ∷ [] } ∷ [];
  graph = small_graph;
}

compare_caches_other : (compare_caches cached (fresh 3)).differing_bytes ≡ 1
unfolding compare_caches compare_passes compare_pass compare_bytes
compare_caches_other = refl

same_modules_iff_example :
    (same_modules cached (fresh 2) ≡ true) ↔ Same cached.passes (fresh 2).passes
same_modules_iff_example = same_modules_iff cached (fresh 2) (omega arith, tt) (omega arith)

abbrev key_inputs : ℕ → CacheKeyInputs
key_inputs options = record {
  dll_bytes = 1 ∷ 2 ∷ 3 ∷ [];
  extractor_version = 1;
  spirv_cross_revision = 97 ∷ [];
  uam_revision = 98 ∷ 99 ∷ [];
  translation_options = options;
  graph_options = 3;
  backend_abi_version = 1;
}

key_inputs-IsKey : (options : ℕ) → options < 2 ^ 32 → IsKey (key_inputs options)
key_inputs-IsKey options h = record {
  dll_bytes = omega arith;
  extractor_version = omega arith;
  spirv_cross_revision = omega arith;
  uam_revision = omega arith;
  translation_options = h;
  graph_options = omega arith;
  backend_abi_version = omega arith;
}

cache_key-splits_example :
    (cache_key (key_inputs 4) ≡ some (reference (key_bytes (key_inputs 4))))
    × ((key_bytes (key_inputs 4) ≡ key_bytes (key_inputs 5)) ↔ (key_inputs 4 ≡ key_inputs 5))
cache_key-splits_example =
    cache_key-splits (key_inputs 4) (key_inputs 5) (key_inputs-IsKey 4 (omega arith))
      (key_inputs-IsKey 5 (omega arith))
