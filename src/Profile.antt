-- ===== src/Profile.antt =====
-- common/profile: the records of titles. The builds are the first `build_count` entries of their
-- array. What a refused call leaves in its output is not modelled.
pub mod Text
pub mod Apply
pub mod Parse
pub mod Check
pub mod Numbers
pub mod Valid
pub mod Kept
pub mod Allowed
mod Tests
use Prim.Native.Char.{code}
use Prim.Native.String.{String}
use lsfg_nx.Base.{
  ℕ, zero, suc, ◌+◌, ◌-◌, ◌*◌, ◌/◌, ◌%◌, ◌^◌, bit_and, min, Bool, true, false, not, ◌&&◌, ◌||◌,
  List, [], ◌∷◌, ◌++◌, Option, none, some, ltb, leb, ◌==◌, if◌then◌else◌, length, take, drop,
  replicate,
}
use lsfg_nx.Error.{ErrorCode}
use lsfg_nx.Outcome.{Outcome, done, failed, faulted, ◌>>=◌}

-- The bytes of a literal.
abbrev pub codes : String → List ℕ
codes String.[] = []
codes (String.◌∷◌ c s) = code c ∷ codes s

abbrev pub max_builds : ℕ
max_builds = 8

abbrev pub name_capacity : ℕ
name_capacity = 64

abbrev pub version_capacity : ℕ
version_capacity = 16

abbrev pub max_text_size : ℕ
max_text_size = 8192

pub record BuildEntry : Type 0 where
  pub version : List ℕ
  pub version_size : ℕ
  pub build_id : ℕ

pub record Presentation : Type 0 where
  pub present_interval : ℕ
  pub swapchain_buffers : ℕ
  pub texture_format : ℕ
  pub handheld_width : ℕ
  pub handheld_height : ℕ

pub record Profile : Type 0 where
  pub name : List ℕ
  pub name_size : ℕ
  pub title_id : ℕ
  pub supported : Bool
  pub builds : List BuildEntry
  pub presentation : Presentation

-- `Profile{}`.
abbrev pub empty_profile : Profile
empty_profile = record {
  name = replicate 64 0;
  name_size = 0;
  title_id = 0;
  supported = false;
  builds = [];
  presentation = record {
    present_interval = 0;
    swapchain_buffers = 0;
    texture_format = 0;
    handheld_width = 0;
    handheld_height = 0;
  };
}

abbrev pub version_view : BuildEntry → List ℕ
version_view entry = take entry.version_size entry.version

abbrev pub name_view : Profile → List ℕ
name_view profile = take profile.name_size profile.name

pub data Section : Type 0 where
  top : Section
  title : Section
  builds : Section
  presentation : Section
  ignored : Section

pub record Seen : Type 0 where
  pub name : Bool
  pub title_id : Bool
  pub supported : Bool

-- The profile so far, and the keys of its title that have been seen.
abbrev pub Progress : Type 0
Progress = Profile × Seen

pub data Targeting : Type 0 where
  strict : Targeting
  permissive : Targeting
