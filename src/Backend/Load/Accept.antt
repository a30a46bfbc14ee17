-- ===== src/Backend/Load/Accept.antt =====
-- cache_load.cpp: `accept`.
use lsfg_nx.Base.{
  ℕ, suc, ◌+◌, ◌-◌, ◌/◌, ◌%◌, ◌^◌, max, Bool, not, ◌&&◌, ◌||◌, List, [], ◌∷◌, ◌++◌, none, some, ltb,
  leb, ◌==◌, if◌then◌else◌, length, get_elem?,
}
use lsfg_nx.Error.{ErrorCode}
use lsfg_nx.Check.{Check, go, stop, fault}
use lsfg_nx.Graph.{Config, ImageDesc, DispatchEntry, role_history, role_generated}
use lsfg_nx.Graph.Extent.{Extent, flow_extent, evaluate, image_bytes}
use lsfg_nx.Graph.Modules.{block_index_of}
use lsfg_nx.Graph.Prepass.{prepass_stage}
use lsfg_nx.Graph.Validate.{differ}
use lsfg_nx.Cache.{Precision, backend_abi_version}
use lsfg_nx.Cache.Validate.{validate_header}
use lsfg_nx.Cache.Store.{LoadedPass, Loaded}
use lsfg_nx.Backend.Load.{
  Limits, Request, ImagePlan, DispatchPlan, Plan, empty_plan, no_pass, Verdict, accepted, faulted,
  ◌>>=◌, ◌>>◌, refuse, refuse_with, refuse_if,
}
use lsfg_nx.Backend.Load.Module.{check_module}

abbrev pub same_configuration : Config → Config → Bool
same_configuration left right =
    not (differ left.performance right.performance)
    && not (differ left.hdr right.hdr)
    && left.generated_frames == right.generated_frames
    && left.flow_numerator == right.flow_numerator
    && left.flow_denominator == right.flow_denominator

-- `(extent + tile - 1U) / tile` on 32-bit numbers.
abbrev pub groups_for : ℕ → ℕ → ℕ
groups_for extent tile = ((extent + tile) % 2 ^ 32 + 2 ^ 32 - 1) % 2 ^ 32 / tile

-- `cache::validate`, with its error as a refusal.
abbrev pub accept_header : Check → Verdict (Unit {0})
accept_header go = accepted tt
accept_header (stop code) = refuse code "a manifest this build does not read"
accept_header fault = faulted

abbrev pub precision_number : Precision → ℕ
precision_number Precision.low = 0
precision_number Precision.high = 1

-- `accept` up to its first loop.
unfoldable pub check_request : Loaded → Request → Verdict (Unit {0})
check_request cache request = do
  refuse_if (request.output.width == 0 || request.output.height == 0)
      (refuse ErrorCode.invalid_argument "no output extent to run at")
  accept_header (validate_header cache.header)
  refuse_if (not (cache.header.backend_abi_version == backend_abi_version)) (
      refuse_with ErrorCode.cache_version_mismatch "a cache prepared for a different backend"
        no_pass cache.header.backend_abi_version backend_abi_version)
  refuse_if (not (cache.header.shader_precision == precision_number request.precision)) (
      refuse_with ErrorCode.cache_configuration_mismatch "a cache prepared at the other precision"
        no_pass cache.header.shader_precision (precision_number request.precision))
  refuse_if (not (same_configuration cache.graph.config request.config))
      (refuse ErrorCode.cache_configuration_mismatch "a cache prepared for another chain")
  refuse_if (not (length cache.passes == cache.header.pass_count))
      (refuse ErrorCode.cache_integrity_failure "a manifest missing its modules")

-- The loop over the passes: the passes left, the index of the next, and the plan so far.
unfoldable pub plan_passes : Limits → List LoadedPass → ℕ → Plan → Verdict Plan
plan_passes limits [] index plan = accepted plan
plan_passes limits (pass ∷ passes) index plan =
    check_module pass index limits
    >> plan_passes limits passes (suc index) (record plan {
      max_registers = max plan.max_registers pass.entry.register_count;
      max_scratch_bytes_per_warp =
          max plan.max_scratch_bytes_per_warp pass.entry.scratch_memory_bytes;
      max_shared_memory_bytes = max plan.max_shared_memory_bytes pass.entry.shared_memory_bytes;
    })

-- The plan of an image of a given extent, counted as imported or as owned.
abbrev pub add_image : Plan → ImageDesc → Extent → Plan
add_image plan desc extent =
    let bytes = image_bytes desc extent in
    let image : ImagePlan = record {
      extent = extent;
      bytes = bytes;
      format = desc.format;
      role = desc.role;
    } in
    let images = plan.images ++ (image ∷ []) in
    if desc.role == role_history || desc.role == role_generated
    then record plan { images = images; imported_images = (plan.imported_images + 1) % 2 ^ 32 }
    else record plan {
      images = images;
      owned_images = (plan.owned_images + 1) % 2 ^ 32;
      owned_image_bytes = (plan.owned_image_bytes + bytes) % 2 ^ 64;
    }

-- The loop over the images.
unfoldable pub plan_images : Request → Extent → List ImageDesc → ℕ → Plan → Verdict Plan
plan_images request flow [] index plan = accepted plan
plan_images request flow (desc ∷ images) index plan =
    let extent = evaluate desc request.output flow in
    refuse_if (extent.width == 0 || extent.height == 0) (
      refuse_with ErrorCode.unsupported "an output extent the chain rounds away to nothing" no_pass
        index 0)
    >> plan_images request flow images (suc index) (add_image plan desc extent)

-- The loop that looks for the pass of a block: the passes left, and the index of the first of them.
unfoldable pub find_pass : List LoadedPass → ℕ → ℕ → ℕ
find_pass [] candidate block_index = no_pass
find_pass (pass ∷ passes) candidate block_index =
    let rest = find_pass passes (suc candidate) block_index in
    if pass.entry.block_index == block_index then candidate else rest

-- The plan of a dispatch over an extent, in tiles of `2 ^ grid_shift`, counted by its stage.
unfoldable pub add_dispatch : Plan → ℕ → DispatchEntry → Extent → Verdict Plan
add_dispatch plan pass dispatch extent =
    let tile = 2 ^ dispatch.grid_shift in
    let planned : DispatchPlan = record {
      pass = pass;
      groups_x = groups_for extent.width tile;
      groups_y = groups_for extent.height tile;
    } in
    let dispatches = plan.dispatches ++ (planned ∷ []) in
    if leb 32 dispatch.grid_shift
    then faulted
    else accepted (
        if dispatch.stage == prepass_stage
        then record plan {
          dispatches = dispatches;
          prepass_dispatches = (plan.prepass_dispatches + 1) % 2 ^ 32;
        }
        else record plan {
          dispatches = dispatches;
          generated_frame_dispatches = (plan.generated_frame_dispatches + 1) % 2 ^ 32;
        })

-- The body of the loop over the dispatches.
unfoldable pub plan_dispatch : Loaded → DispatchEntry → ℕ → Plan → Verdict Plan
plan_dispatch cache dispatch index plan =
    let pass = find_pass cache.passes 0 (block_index_of cache.graph dispatch) in
    if pass == no_pass
    then refuse_with ErrorCode.shader_set_unknown "a dispatch whose module the cache does not hold"
        no_pass index 0
    else elim (get_elem? plan.images dispatch.grid_image) [
      | none ↦
          refuse_with ErrorCode.cache_integrity_failure
            "a dispatch over an image the graph does not have" no_pass index 0
      | some image ↦ add_dispatch plan pass dispatch image.extent
    ]

-- The loop over the dispatches.
unfoldable pub plan_dispatches : Loaded → List DispatchEntry → ℕ → Plan → Verdict Plan
plan_dispatches cache [] index plan = accepted plan
plan_dispatches cache (dispatch ∷ dispatches) index plan =
    plan_dispatch cache dispatch index plan >>= plan_dispatches cache dispatches (suc index)

-- The test of the memory that the images take.
unfoldable pub check_budget : Request → Plan → Verdict (Unit {0})
check_budget request plan = refuse_if (ltb request.memory_budget_bytes plan.owned_image_bytes) (
    refuse_with ErrorCode.out_of_memory "a chain larger than the memory it is allowed" no_pass
      plan.owned_image_bytes request.memory_budget_bytes)

unfoldable pub accept : Loaded → Request → Verdict Plan
accept cache request =
    let flow = flow_extent cache.graph.config request.output in
    do
      check_request cache request
      passes ← plan_passes request.limits cache.passes 0 empty_plan
      images ←
          plan_images request flow cache.graph.images 0
            (record passes { output = request.output; flow = flow })
      check_budget request images
      dispatches ← plan_dispatches cache cache.graph.dispatches 0 images
      accepted (record dispatches {
        descriptor_sets = length cache.graph.variants % 2 ^ 32;
        uniform_buffers = cache.graph.uniform_buffer_count;
      })
