-- ===== src/Plugin/Coexistence.antt =====
-- runtime/plugin coexistence.hpp and coexistence.cpp: a trial of the graphics library beside the game.
-- The library and the session of the game are parameters, as the answers that their calls give in
-- one run.
pub mod Shader
pub mod Run
pub mod Allocate
pub mod Reads
pub mod Released
mod Tests
use lsfg_nx.Base.{ℕ, Bool, true, false, List, [], ◌∷◌, ◌++◌}

pub data Stage : Type 0 where
  not_started : Stage
  nvdrv_session : Stage
  device : Stage
  external_layout : Stage
  queue : Stage
  code_memory : Stage
  shader : Stage
  result_memory : Stage
  command_memory : Stage
  command_buffer : Stage
  command_list : Stage
  submitted : Stage
  waiting : Stage
  timed_out : Stage
  wait_failed : Stage
  completed : Stage
  cleanup : Stage
  verified : Stage

-- The results of the library that the code names; another error is `fail`.
pub data DkResult : Type 0 where
  success : DkResult
  timeout : DkResult
  bad_input : DkResult
  out_of_memory : DkResult
  fail : DkResult

pub record ExternalLayout : Type 0 where
  pub storage_offset : ℕ
  pub storage_size : ℕ
  pub pool_size : ℕ
  pub storage_alignment : ℕ
  pub width : ℕ
  pub height : ℕ
  pub depth : ℕ
  pub levels : ℕ
  pub samples : ℕ
  pub format : ℕ
  pub flags : ℕ
  pub target : ℕ
  pub stride : ℕ
  pub pool_flags : ℕ
  pub storage_class : ℕ

pub record Result : Type 0 where
  pub stage : Stage
  pub value : ℕ
  pub arena_bytes : ℕ
  pub layout_size : ℕ
  pub layout_alignment : ℕ
  pub layout_kind : ℕ
  pub layout_result : DkResult
  pub layout_passed : Bool
  pub passed : Bool

-- `Result{}`.
abbrev pub empty_result : Result
empty_result = record {
  stage = Stage.not_started;
  value = 0;
  arena_bytes = 0;
  layout_size = 0;
  layout_alignment = 0;
  layout_kind = 0;
  layout_result = DkResult.fail;
  layout_passed = false;
  passed = false;
}

abbrev pub expected_value : ℕ
expected_value = 0x4C53_4647

-- What the library says of an image layout.
pub record LayoutAnswer : Type 0 where
  pub result : DkResult
  pub size : ℕ
  pub alignment : ℕ
  pub kind : ℕ

-- The library's constants, and the answers of its calls in one run: whether a handle is made, what
-- the layout is where it is applied and where it is not, what the fence says, and what the shader
-- has written. The mask is `~(DK_MEMBLOCK_ALIGNMENT - 1U)` widened to 64 bits, whose high bits depend on
-- the type of that constant.
pub record Deko : Type 0 where
  pub shader_code_alignment : ℕ
  pub shader_code_unusable : ℕ
  pub memory_block_alignment : ℕ
  pub memory_block_mask : ℕ
  pub compressed_kind : ℕ
  pub captured : Bool
  pub capture_result : ℕ
  pub device_made : Bool
  pub applied : LayoutAnswer
  pub untouched : LayoutAnswer
  pub queue_made : Bool
  pub code_memory_made : Bool
  pub shader_valid : Bool
  pub result_memory_made : Bool
  pub result_mapped : Bool
  pub command_memory_made : Bool
  pub commands_made : Bool
  pub list_made : Bool
  pub wait : DkResult
  pub queue_error : Bool
  pub output : ℕ
  pub arena_used : ℕ

-- What is created and destroyed.
pub data Handle : Type 0 where
  device : Handle
  queue : Handle
  code_memory : Handle
  result_memory : Handle
  command_memory : Handle
  commands : Handle

-- What a run does to the outside, in order. A callback that is null does nothing at a notice.
pub data Event : Type 0 where
  created : Handle → Event
  destroyed : Handle → Event
  notified : Stage → Event
  sent : Event

-- The variables of `run`: the result, which handles are not null, and the events so far.
pub record Machine : Type 0 where
  pub result : Result
  pub device : Bool
  pub queue : Bool
  pub code_memory : Bool
  pub result_memory : Bool
  pub command_memory : Bool
  pub commands : Bool
  pub events : List Event

abbrev pub start : Machine
start = record {
  result = empty_result;
  device = false;
  queue = false;
  code_memory = false;
  result_memory = false;
  command_memory = false;
  commands = false;
  events = [];
}

abbrev pub emit : Event → Machine → Machine
emit event m = record m { events = m.events ++ (event ∷ []) }

abbrev pub enter : Stage → Machine → Machine
enter stage m = record m { result = record m.result { stage = stage } }

-- A stage that is notified.
abbrev pub announce : Stage → Machine → Machine
announce stage m = emit (Event.notified stage) (enter stage m)
