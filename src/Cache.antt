-- ===== src/Cache.antt =====
-- common/cache-format: the manifest of a prepared cache. A digest and a revision are lists of bytes.
pub mod Manifest
pub mod Options
pub mod Crc
pub mod Validate
pub mod Accepts
pub mod Runs
pub mod Wraps
pub mod Key
pub mod KeyFields
pub mod Store
pub mod Compare
pub mod SameModules
pub mod Example
mod Tests
use lsfg_nx.Base.{ℕ, List}

abbrev pub manifest_magic : ℕ
manifest_magic = 0x4746_534C

abbrev pub abi_version : ℕ
abi_version = 2

abbrev pub backend_abi_version : ℕ
backend_abi_version = 2

abbrev pub extractor_version : ℕ
extractor_version = 1

abbrev pub graph_version : ℕ
graph_version = 1

abbrev pub digest_size : ℕ
digest_size = 32

abbrev pub revision_size : ℕ
revision_size = 20

abbrev pub max_passes : ℕ
max_passes = 64

abbrev pub max_slots : ℕ
max_slots = 4096

abbrev pub max_images : ℕ
max_images = 4096

abbrev pub max_dispatches : ℕ
max_dispatches = 1024

abbrev pub max_variants : ℕ
max_variants = 2048

abbrev pub max_bindings : ℕ
max_bindings = 65536

-- `Precision`.
pub data Precision : Type 0 where
  low high : Precision

abbrev pub option_performance : ℕ
option_performance = 1

abbrev pub option_hdr : ℕ
option_hdr = 2

pub record ManifestHeader : Type 0 where
  pub magic : ℕ
  pub abi_version : ℕ
  pub dll_hash : List ℕ
  pub dll_size : ℕ
  pub extractor_version : ℕ
  pub graph_version : ℕ
  pub spirv_cross_revision : List ℕ
  pub uam_revision : List ℕ
  pub translation_options : ℕ
  pub backend_abi_version : ℕ
  pub shader_first_resource_id : ℕ
  pub shader_block_size : ℕ
  pub shader_precision : ℕ
  pub options : ℕ
  pub pass_count : ℕ
  pub slot_count : ℕ
  pub image_count : ℕ
  pub dispatch_count : ℕ
  pub variant_count : ℕ
  pub binding_count : ℕ
  pub uniform_buffer_count : ℕ
  pub generated_frames : ℕ
  pub flow_numerator : ℕ
  pub flow_denominator : ℕ
  pub payload_crc32 : ℕ
  pub reserved0_ : ℕ

pub record PassEntry : Type 0 where
  pub resource_id : ℕ
  pub block_index : ℕ
  pub dksh_size : ℕ
  pub scratch_memory_bytes : ℕ
  pub dksh_hash : List ℕ
  pub workgroup_x : ℕ
  pub workgroup_y : ℕ
  pub workgroup_z : ℕ
  pub reserved0_ : ℕ
  pub image_count : ℕ
  pub storage_image_count : ℕ
  pub sampler_count : ℕ
  pub uniform_buffer_count : ℕ
  pub texture_slot_count : ℕ
  pub slot_first : ℕ
  pub slot_count : ℕ
  pub register_count : ℕ
  pub shared_memory_bytes : ℕ

-- `SlotKind`: an enumerator is its number, since an entry comes from a file.
abbrev pub kind_uniform_buffer : ℕ
kind_uniform_buffer = 0

abbrev pub kind_texture : ℕ
kind_texture = 1

abbrev pub kind_storage_image : ℕ
kind_storage_image = 2

abbrev pub introduced_sampler : ℕ
introduced_sampler = 0xFF

pub record SlotEntry : Type 0 where
  pub kind : ℕ
  pub slot : ℕ
  pub ordinal : ℕ
  pub sampler_ordinal : ℕ
