-- ===== src/Graph.antt =====
-- common/image-graph: the data of the image graph. An enumerator of an 8-bit enum is its number,
-- since a graph may come from a cache file; a vector is a list.
pub mod Shaders
pub mod Validate
pub mod Modules
pub mod Extent
pub mod Sizes
pub mod Required
pub mod Covers
pub mod Sorted
pub mod Listed
pub mod Interfaces
pub mod Builder
pub mod Prepass
pub mod Frames
pub mod Build
pub mod Accepts
pub mod WellFormed
pub mod Wraps
pub mod Example
mod Tests
use lsfg_nx.Base.{ℕ, ◌+◌, ◌%◌, ◌^◌, Bool, List}

abbrev pub max_generated_frames : ℕ
max_generated_frames = 3

abbrev pub history_image_count : ℕ
history_image_count = 2

abbrev pub max_dispatch_samplers : ℕ
max_dispatch_samplers = 2

abbrev pub no_uniform_buffer : ℕ
no_uniform_buffer = 0xFF

-- `Format`, `ExtentBase` and `ImageRole`.
abbrev pub format_rgba8 : ℕ
format_rgba8 = 0

abbrev pub format_r8 : ℕ
format_r8 = 1

abbrev pub format_rgba16f : ℕ
format_rgba16f = 2

abbrev pub base_output : ℕ
base_output = 0

abbrev pub base_flow : ℕ
base_flow = 1

abbrev pub base_fixed : ℕ
base_fixed = 2

abbrev pub role_internal : ℕ
role_internal = 0

abbrev pub role_history : ℕ
role_history = 1

abbrev pub role_generated : ℕ
role_generated = 2

abbrev pub role_constant : ℕ
role_constant = 3

pub record ImageDesc : Type 0 where
  pub base : ℕ
  pub shift_before : ℕ
  pub ceil_halvings : ℕ
  pub shift_after : ℕ
  pub fixed_width : ℕ
  pub fixed_height : ℕ
  pub format : ℕ
  pub role : ℕ

pub record VariantEntry : Type 0 where
  pub binding_first : ℕ
  pub texture_count : ℕ
  pub storage_count : ℕ
  pub samplers : List ℕ
  pub sampler_count : ℕ
  pub uniform_buffer : ℕ

pub record DispatchEntry : Type 0 where
  pub slot : ℕ
  pub grid_image : ℕ
  pub variant_first : ℕ
  pub variant_count : ℕ
  pub grid_shift : ℕ
  pub stage : ℕ

pub record Config : Type 0 where
  pub performance : Bool
  pub hdr : Bool
  pub generated_frames : ℕ
  pub flow_numerator : ℕ
  pub flow_denominator : ℕ

pub record Graph : Type 0 where
  pub config : Config
  pub images : List ImageDesc
  pub dispatches : List DispatchEntry
  pub variants : List VariantEntry
  pub bindings : List ℕ
  pub uniform_buffer_count : ℕ

-- A sum of 32-bit numbers, which wraps.
abbrev pub add32 : ℕ → ℕ → ℕ
add32 a b = (a + b) % 2 ^ 32
