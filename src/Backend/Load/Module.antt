-- ===== src/Backend/Load/Module.antt =====
-- cache_load.cpp: the check of one module.
use lsfg_nx.Base.{ℕ, ◌*◌, not, ◌||◌, ltb, ◌==◌, List}
use lsfg_nx.Error.{ErrorCode}
use lsfg_nx.Outcome.{Outcome}
use lsfg_nx.Dksh.{ComputeProgram, validate}
use lsfg_nx.Cache.{PassEntry}
use lsfg_nx.Cache.Store.{LoadedPass}
use lsfg_nx.Backend.Load.{Limits, Verdict, accepted, faulted, ◌>>=◌, ◌>>◌, refuse_with, refuse_if}

-- `dksh::validate`, with its error as a refusal of the module.
unfoldable pub load_program : List ℕ → ℕ → Verdict ComputeProgram
load_program bytes index = elim (validate bytes) [
  | Outcome.done program ↦ accepted program
  | Outcome.failed code ↦ refuse_with code "a module the executor cannot load" index 0 0
  | Outcome.faulted ↦ faulted
]

-- The tests of a pass against the limits of the executor.
unfoldable pub check_limits : PassEntry → ℕ → Limits → Verdict (Unit {0})
check_limits entry index limits =
    let invocations = entry.workgroup_x * entry.workgroup_y * entry.workgroup_z in
    do
      refuse_if (ltb limits.textures entry.texture_slot_count) (
          refuse_with ErrorCode.shader_interface_mismatch
            "more texture slots than the executor binds" index entry.texture_slot_count
            limits.textures)
      refuse_if (ltb limits.storage_images entry.storage_image_count) (
          refuse_with ErrorCode.shader_interface_mismatch
            "more storage images than the executor binds" index entry.storage_image_count
            limits.storage_images)
      refuse_if (ltb limits.uniform_buffers entry.uniform_buffer_count) (
          refuse_with ErrorCode.shader_interface_mismatch
            "more uniform buffers than the executor binds" index entry.uniform_buffer_count
            limits.uniform_buffers)
      refuse_if (ltb limits.workgroup_invocations invocations) (
          refuse_with ErrorCode.shader_interface_mismatch
            "a workgroup larger than the executor dispatches" index invocations
            limits.workgroup_invocations)
      refuse_if (ltb limits.shared_memory_bytes entry.shared_memory_bytes) (
          refuse_with ErrorCode.shader_interface_mismatch
            "more shared memory than the executor provides" index entry.shared_memory_bytes
            limits.shared_memory_bytes)

-- The tests of a pass against its program.
unfoldable pub check_program : PassEntry → ℕ → ComputeProgram → Verdict (Unit {0})
check_program entry index program = do
  refuse_if
      (not (program.block_dim_x == entry.workgroup_x)
        || not (program.block_dim_y == entry.workgroup_y)
        || not (program.block_dim_z == entry.workgroup_z))
      (refuse_with ErrorCode.shader_interface_mismatch
        "a module whose workgroup is not the one recorded" index program.block_dim_x 0)
  refuse_if
      (not (program.gprs == entry.register_count)
        || not (program.per_warp_scratch_bytes == entry.scratch_memory_bytes)
        || not (program.shared_memory_bytes == entry.shared_memory_bytes))
      (refuse_with ErrorCode.cache_integrity_failure
        "a module whose requirements are not the ones recorded" index 0 0)

unfoldable pub check_module : LoadedPass → ℕ → Limits → Verdict (Unit {0})
check_module pass index limits =
    check_limits pass.entry index limits
    >> (load_program pass.dksh index >>= check_program pass.entry index)
