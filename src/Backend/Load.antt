-- ===== src/Backend/Load.antt =====
-- runtime/backend cache_load.hpp: a request, the plan of what a loaded cache takes, and why one is
-- refused. What a refused call leaves in the plan is not modelled.
pub mod Module
pub mod Accept
pub mod Images
pub mod Dispatches
pub mod Total
pub mod Example
mod Tests
use Prim.Native.String.{String}
use lsfg_nx.Base.{◌≡◌, refl, ℕ, List, [], Bool, if◌then◌else◌}
use lsfg_nx.Error.{ErrorCode}
use lsfg_nx.Graph.{Config}
use lsfg_nx.Graph.Extent.{Extent}
use lsfg_nx.Cache.{Precision}

abbrev pub no_pass : ℕ
no_pass = 0xFFFF_FFFF

pub record Limits : Type 0 where
  pub textures : ℕ
  pub storage_images : ℕ
  pub uniform_buffers : ℕ
  pub workgroup_invocations : ℕ
  pub shared_memory_bytes : ℕ

pub record Request : Type 0 where
  pub config : Config
  pub precision : Precision
  pub output : Extent
  pub memory_budget_bytes : ℕ
  pub limits : Limits

pub record ImagePlan : Type 0 where
  pub extent : Extent
  pub bytes : ℕ
  pub format : ℕ
  pub role : ℕ

pub record DispatchPlan : Type 0 where
  pub pass : ℕ
  pub groups_x : ℕ
  pub groups_y : ℕ

pub record Plan : Type 0 where
  pub output : Extent
  pub flow : Extent
  pub images : List ImagePlan
  pub dispatches : List DispatchPlan
  pub owned_image_bytes : ℕ
  pub owned_images : ℕ
  pub imported_images : ℕ
  pub descriptor_sets : ℕ
  pub uniform_buffers : ℕ
  pub prepass_dispatches : ℕ
  pub generated_frame_dispatches : ℕ
  pub max_registers : ℕ
  pub max_scratch_bytes_per_warp : ℕ
  pub max_shared_memory_bytes : ℕ

-- `Plan{}`.
abbrev pub empty_plan : Plan
empty_plan = record {
  output = record { width = 0; height = 0 };
  flow = record { width = 0; height = 0 };
  images = [];
  dispatches = [];
  owned_image_bytes = 0;
  owned_images = 0;
  imported_images = 0;
  descriptor_sets = 0;
  uniform_buffers = 0;
  prepass_dispatches = 0;
  generated_frame_dispatches = 0;
  max_registers = 0;
  max_scratch_bytes_per_warp = 0;
  max_shared_memory_bytes = 0;
}

pub record Rejection : Type 0 where
  pub code : ErrorCode
  pub reason : String
  pub pass : ℕ
  pub observed : ℕ
  pub allowed : ℕ

-- What a step of the loader leaves: its result, the reason for which it refuses the cache, or a read
-- outside an array or a shift, for which the source has no behaviour.
pub data Verdict (A : Type 0) : Type 0 where
  accepted : A → Verdict A
  refused : Rejection → Verdict A
  faulted : Verdict A

infixl 5 ◌>>=◌ ◌>>◌
abbrev pub ◌>>=◌ : {A B : Type 0} → Verdict A → (A → Verdict B) → Verdict B
accepted a >>= f = f a
refused why >>= f = refused why
faulted >>= f = faulted

abbrev pub ◌>>◌ : {B : Type 0} → Verdict (Unit {0}) → Verdict B → Verdict B
m >> k = m >>= λ _. k

-- `refuse`, with the arguments that it takes by default.
abbrev pub refuse_with : {A : Type 0} → ErrorCode → String → ℕ → ℕ → ℕ → Verdict A
refuse_with code reason pass observed allowed =
    refused
      (record { code = code; reason = reason; pass = pass; observed = observed; allowed = allowed })

abbrev pub refuse : {A : Type 0} → ErrorCode → String → Verdict A
refuse code reason = refuse_with code reason no_pass 0 0

-- `if (test) return refuse(...);`
abbrev pub refuse_if : Bool → Verdict (Unit {0}) → Verdict (Unit {0})
refuse_if test why = if test then why else accepted tt

pub >>=-accepted :
    {A B : Type 0} (m : Verdict A) (f : A → Verdict B) {b : B}
    → (m >>= f) ≡ accepted b
    → (a : A) × (m ≡ accepted a) × (f a ≡ accepted b)
>>=-accepted (accepted a) f h = (a, refl, h)
>>=-accepted (refused why) f h = cc
>>=-accepted faulted f h = cc
