-- ===== src/Backend/Load/Tests.antt =====
-- The theorem on cache_load.cpp at a small cache.
use lsfg_nx.Base.{◌≡◌, refl, arith}
use lsfg_nx.Graph.Extent.{flow_extent, evaluate, ceil_halve, bytes_per_pixel}
use lsfg_nx.Graph.Modules.{block_index_of}
use lsfg_nx.Dksh.{
  read_byte, read_u32, read_header, read_program, check_header, check_program as check_code,
  validate_program, validate,
}
use lsfg_nx.Cache.Manifest.{initialize, describe}
use lsfg_nx.Cache.Validate.{validate_header}
use lsfg_nx.Backend.Load.{accepted}
use lsfg_nx.Backend.Load.Module.{load_program, check_limits, check_program, check_module}
use lsfg_nx.Backend.Load.Accept.{
  check_request, plan_passes, plan_images, find_pass, add_dispatch, plan_dispatch, plan_dispatches,
  check_budget, accept,
}
use lsfg_nx.Backend.Load.Total.{Promises, accept-Promises}
use lsfg_nx.Backend.Load.Example.{small_loaded, small_request, small_plan}

small_loaded_accepted : accept small_loaded small_request ≡ accepted small_plan
unfolding accept check_request plan_passes plan_images find_pass add_dispatch plan_dispatch
    plan_dispatches check_budget check_module load_program check_limits check_program
    validate_header describe initialize flow_extent evaluate ceil_halve bytes_per_pixel
    block_index_of validate validate_program read_header read_program read_u32 read_byte
    check_header check_code
small_loaded_accepted = refl

accept-Promises_example : Promises small_loaded small_request small_plan
unfolding flow_extent evaluate ceil_halve
accept-Promises_example =
    accept-Promises small_loaded small_request small_plan (omega arith) small_loaded_accepted
