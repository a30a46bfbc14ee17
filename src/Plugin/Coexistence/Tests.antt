-- ===== src/Plugin/Coexistence/Tests.antt =====
-- Runs of the trial beside the game.
use lsfg_nx.Base.{
  ◌-◌, ◌^◌, ℕ, ◌≡◌, refl, Bool, true, false, arith, List, length, Option, none, some, [], ◌∷◌, ◌++◌,
  replicate,
}
use lsfg_nx.Outcome.{Outcome, done, failed, faulted}
use lsfg_nx.Plugin.Coexistence.{Stage, DkResult, ExternalLayout, Deko, LayoutAnswer, expected_value}
use lsfg_nx.Plugin.Coexistence.Run.{
  Ending, run, begin, open_session, create_device, check_layout, judge_layout, create_queue,
  create_code_memory, create_result_memory, create_command_memory, create_commands, submit,
  wait_for,
}
use lsfg_nx.Dksh.{read_u32, read_byte}
use lsfg_nx.Plugin.Coexistence.Shader.{
  read_shader_header, copy_header, read_scratch, code_memory_size, reconstruct_external_layout,
  layout_refused, layout_valid,
}
use lsfg_nx.Plugin.Coexistence.Allocate.{Allocated, allocate, allocate-Fits}
use lsfg_nx.Plugin.Coexistence.Released.{Released, run-Released}

abbrev external : ExternalLayout
external = record {
  storage_offset = 0;
  storage_size = 4096;
  pool_size = 4096;
  storage_alignment = 512;
  width = 16;
  height = 16;
  depth = 1;
  levels = 1;
  samples = 0;
  format = 37;
  flags = 0x0D;
  target = 1;
  stride = 0;
  pool_flags = 0xA1;
  storage_class = 0x1DB;
}

abbrev answer : LayoutAnswer
answer = record { result = DkResult.success; size = 4096; alignment = 512; kind = 0xDB }

-- A library where all calls succeed, and the fence is what is given.
abbrev library : DkResult → Deko
library wait = record {
  shader_code_alignment = 8;
  shader_code_unusable = 1024;
  memory_block_alignment = 4096;
  memory_block_mask = 2 ^ 32 - 4096;
  compressed_kind = 0xDB;
  captured = true;
  capture_result = 0;
  device_made = true;
  applied = answer;
  untouched = answer;
  queue_made = true;
  code_memory_made = true;
  shader_valid = true;
  result_memory_made = true;
  result_mapped = true;
  command_memory_made = true;
  commands_made = true;
  list_made = true;
  wait = wait;
  queue_error = false;
  output = expected_value;
  arena_used = 8192;
}

abbrev shader : List ℕ
shader =
    (0x44 ∷ 0x4B ∷ 0x53 ∷ 0x48 ∷ 24 ∷ 0 ∷ 0 ∷ 0 ∷ 88 ∷ 0 ∷ 0 ∷ 0 ∷ 8 ∷ 0 ∷ 0 ∷ 0 ∷ [])
    ++ (24 ∷ 0 ∷ 0 ∷ 0 ∷ 1 ∷ 0 ∷ 0 ∷ 0 ∷ 5 ∷ [])
    ++ replicate 71 0

-- What is seen of an ending.
abbrev seen : Outcome Ending → Option (Stage × Bool × ℕ)
seen (done (result, events)) = some (result.stage, result.passed, length events)
seen (failed e) = none
seen faulted = none

run_verified :
    seen (run (library DkResult.success) shader external) ≡ some (Stage.verified, true, 19)
unfolding run read_shader_header copy_header read_u32 read_byte read_scratch begin code_memory_size
    open_session create_device check_layout judge_layout reconstruct_external_layout layout_refused
    layout_valid create_queue create_code_memory create_result_memory create_command_memory
    create_commands submit wait_for
run_verified = refl

run-Released_example :
    (ending : Ending) × (run (library DkResult.timeout) shader external ≡ done ending)
    × Released ending
run-Released_example = run-Released (library DkResult.timeout) shader external

allocate-Fits_example : Allocated 100 none 64 1000 (allocate 100 true none 64 1000)
allocate-Fits_example = allocate-Fits 100 true none 64 1000 (omega arith) (omega arith)
