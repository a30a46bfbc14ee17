-- ===== src/Cache/Manifest.antt =====
-- cache_format.cpp: what a manifest header says of a graph.
use lsfg_nx.Base.{ℕ, ◌-◌, ◌%◌, ◌^◌, bit_and, bit_or, not, ◌==◌, if◌then◌else◌, length, replicate}
use lsfg_nx.Graph.{Graph, Config}
use lsfg_nx.Cache.{
  ManifestHeader, manifest_magic, abi_version, extractor_version, graph_version,
  backend_abi_version, digest_size, revision_size, option_performance, option_hdr,
}

-- `ManifestHeader{}`.
abbrev pub blank_header : ManifestHeader
blank_header = record {
  magic = 0;
  abi_version = 0;
  dll_hash = replicate digest_size 0;
  dll_size = 0;
  extractor_version = 0;
  graph_version = 0;
  spirv_cross_revision = replicate revision_size 0;
  uam_revision = replicate revision_size 0;
  translation_options = 0;
  backend_abi_version = 0;
  shader_first_resource_id = 0;
  shader_block_size = 0;
  shader_precision = 0;
  options = 0;
  pass_count = 0;
  slot_count = 0;
  image_count = 0;
  dispatch_count = 0;
  variant_count = 0;
  binding_count = 0;
  uniform_buffer_count = 0;
  generated_frames = 0;
  flow_numerator = 0;
  flow_denominator = 0;
  payload_crc32 = 0;
  reserved0_ = 0;
}

-- The header that `initialize` leaves, whatever the header before.
unfoldable pub initialize : ManifestHeader → ManifestHeader
initialize header = record blank_header {
  magic = manifest_magic;
  abi_version = abi_version;
  extractor_version = extractor_version;
  graph_version = graph_version;
  backend_abi_version = backend_abi_version;
}

-- The options of a header, with the two flags of a configuration.
abbrev pub describe_options : ℕ → Config → ℕ
describe_options options config =
    bit_or
      (bit_or (bit_and options (2 ^ 32 - 1 - bit_or option_performance option_hdr))
        (if config.performance then option_performance else 0))
      (if config.hdr then option_hdr else 0)

unfoldable pub describe : ManifestHeader → Graph → ManifestHeader
describe header g = record header {
  graph_version = graph_version;
  image_count = length g.images % 2 ^ 32;
  dispatch_count = length g.dispatches % 2 ^ 32;
  variant_count = length g.variants % 2 ^ 32;
  binding_count = length g.bindings % 2 ^ 32;
  uniform_buffer_count = g.uniform_buffer_count;
  generated_frames = g.config.generated_frames;
  flow_numerator = g.config.flow_numerator;
  flow_denominator = g.config.flow_denominator;
  options = describe_options header.options g.config;
}

unfoldable pub configuration : ManifestHeader → Config
configuration header = record {
  performance = not (bit_and header.options option_performance == 0);
  hdr = not (bit_and header.options option_hdr == 0);
  generated_frames = header.generated_frames;
  flow_numerator = header.flow_numerator;
  flow_denominator = header.flow_denominator;
}
