-- ===== src/Protocol.antt =====
-- common/protocol: the blocks that the plugin and the overlay share, and the report ring.
-- A byte, a character and an enumerator of an 8-bit enum are numbers, since the blocks hold what
-- another process wrote; an array is a list. The reserved padding bytes are left out.
pub mod Blocks
pub mod Ring
pub mod Queue
mod Tests
use lsfg_nx.Base.{
  ℕ, ◌+◌, ◌-◌, ◌%◌, ◌^◌, min, bit_and, Bool, true, false, ◌||◌, not, List, [], ◌∷◌, ◌++◌, ltb, leb,
  ◌==◌, if◌then◌else◌, length, take, drop, replicate, get_or, set,
}
use lsfg_nx.Error.{ErrorCode}

abbrev pub abi_version : ℕ
abi_version = 2

abbrev pub message_capacity : ℕ
message_capacity = 96

abbrev pub report_magic : ℕ
report_magic = 0x4c53464752455054

abbrev pub report_line_capacity : ℕ
report_line_capacity = 192

abbrev pub report_slot_count : ℕ
report_slot_count = 18

-- `sizeof` of the blocks, as the static assertions fix it.
abbrev pub control_block_size : ℕ
control_block_size = 32

abbrev pub status_block_size : ℕ
status_block_size = 208

abbrev pub report_block_size : ℕ
report_block_size = 3648

-- The enumerators that the validators compare with.
abbrev pub mode_interpolate_2x : ℕ
mode_interpolate_2x = 1

abbrev pub preset_performance : ℕ
preset_performance = 2

abbrev pub debug_view_history_age : ℕ
debug_view_history_age = 3

abbrev pub state_error : ℕ
state_error = 5

abbrev pub api_vulkan : ℕ
api_vulkan = 2

pub record ControlBlock : Type 0 where
  pub abi_version : ℕ
  pub struct_size : ℕ
  pub sequence : ℕ
  pub enabled : ℕ
  pub mode : ℕ
  pub preset : ℕ
  pub strict_targeting : ℕ
  pub debug_view : ℕ
  pub emergency_bypass : ℕ
  pub reset_history_counter : ℕ
  pub max_generation_time_us : ℕ

pub record StatusBlock : Type 0 where
  pub abi_version : ℕ
  pub struct_size : ℕ
  pub sequence : ℕ
  pub runtime_version : ℕ
  pub acted_reset_counter : ℕ
  pub title_id : ℕ
  pub build_id_low : ℕ
  pub build_id_high : ℕ
  pub missed_deadlines : ℕ
  pub state : ℕ
  pub api : ℕ
  pub history_valid : ℕ
  pub swapchain_buffers : ℕ
  pub swapchain_width : ℕ
  pub swapchain_height : ℕ
  pub swapchain_format : ℕ
  pub real_fps_millis : ℕ
  pub present_fps_millis : ℕ
  pub generation_time_avg_us : ℕ
  pub generation_time_max_us : ℕ
  pub imported_allocations : ℕ
  pub gpu_memory_bytes : ℕ
  pub last_error : ErrorCode
  pub message_size : ℕ
  pub message : List ℕ

pub record ReportSlot : Type 0 where
  pub length : ℕ
  pub text : List ℕ

pub record ReportBlock : Type 0 where
  pub magic : ℕ
  pub abi_version : ℕ
  pub struct_size : ℕ
  pub slot_count : ℕ
  pub line_capacity : ℕ
  pub write_sequence : ℕ
  pub read_sequence : ℕ
  pub dropped : ℕ
  pub slots : List ReportSlot

pub sequence_is_stable : ℕ → Bool
sequence_is_stable sequence = bit_and sequence 1 == 0

pub initialize_control : ControlBlock
initialize_control = record {
  abi_version = abi_version;
  struct_size = control_block_size;
  sequence = 0;
  enabled = 0;
  mode = 0;
  preset = 0;
  strict_targeting = 1;
  debug_view = 0;
  emergency_bypass = 0;
  reset_history_counter = 0;
  max_generation_time_us = 0;
}

pub initialize_status : StatusBlock
initialize_status = record {
  abi_version = abi_version;
  struct_size = status_block_size;
  sequence = 0;
  runtime_version = 0;
  acted_reset_counter = 0;
  title_id = 0;
  build_id_low = 0;
  build_id_high = 0;
  missed_deadlines = 0;
  state = 0;
  api = 0;
  history_valid = 0;
  swapchain_buffers = 0;
  swapchain_width = 0;
  swapchain_height = 0;
  swapchain_format = 0;
  real_fps_millis = 0;
  present_fps_millis = 0;
  generation_time_avg_us = 0;
  generation_time_max_us = 0;
  imported_allocations = 0;
  gpu_memory_bytes = 0;
  last_error = ErrorCode.ok;
  message_size = 0;
  message = replicate message_capacity 0;
}

abbrev pub empty_slot : ReportSlot
empty_slot = record { length = 0; text = replicate report_line_capacity 0 }

pub initialize_reports : ReportBlock
initialize_reports = record {
  magic = report_magic;
  abi_version = abi_version;
  struct_size = report_block_size;
  slot_count = report_slot_count;
  line_capacity = report_line_capacity;
  write_sequence = 0;
  read_sequence = 0;
  dropped = 0;
  slots = replicate report_slot_count empty_slot;
}

pub validate_control : ControlBlock → ErrorCode
unfolding sequence_is_stable
validate_control c =
    if not (c.abi_version == abi_version)
    then ErrorCode.protocol_version_mismatch
    else if not (c.struct_size == control_block_size)
    then ErrorCode.protocol_version_mismatch
    else if not (sequence_is_stable c.sequence)
    then ErrorCode.protocol_message_invalid
    else if ltb mode_interpolate_2x c.mode
    then ErrorCode.protocol_message_invalid
    else if ltb preset_performance c.preset
    then ErrorCode.protocol_message_invalid
    else if ltb debug_view_history_age c.debug_view
    then ErrorCode.protocol_message_invalid
    else ErrorCode.ok

pub validate_status : StatusBlock → ErrorCode
unfolding sequence_is_stable
validate_status s =
    if not (s.abi_version == abi_version)
    then ErrorCode.protocol_version_mismatch
    else if not (s.struct_size == status_block_size)
    then ErrorCode.protocol_version_mismatch
    else if not (sequence_is_stable s.sequence)
    then ErrorCode.protocol_message_invalid
    else if ltb state_error s.state
    then ErrorCode.protocol_message_invalid
    else if ltb api_vulkan s.api
    then ErrorCode.protocol_message_invalid
    else if ltb message_capacity s.message_size
    then ErrorCode.protocol_message_invalid
    else ErrorCode.ok

pub validate_reports : ReportBlock → ErrorCode
validate_reports r =
    if not (r.magic == report_magic) || not (r.abi_version == abi_version)
    then ErrorCode.protocol_version_mismatch
    else if not (r.struct_size == report_block_size)
        || not (r.slot_count == report_slot_count)
        || not (r.line_capacity == report_line_capacity)
    then ErrorCode.protocol_version_mismatch
    else ErrorCode.ok

-- The difference of two 64-bit sequence numbers.
abbrev pub sub64 : ℕ → ℕ → ℕ
sub64 a b = (a + 2 ^ 64 - b) % 2 ^ 64

-- The slot after `memcpy`: the bytes behind the copied ones stay.
abbrev pub fill_slot : ReportSlot → List ℕ → ReportSlot
fill_slot slot text =
    let size = min (length text) (length slot.text) in
    record { length = size; text = take size text ++ drop size slot.text }

-- The slot that a sequence number selects. The array has `report_slot_count` entries, so the
-- default stands for no read of the program.
abbrev pub slot_at : List ReportSlot → ℕ → ReportSlot
slot_at slots sequence = get_or slots (sequence % report_slot_count) empty_slot

-- One call with no other in between: the relaxed, acquiring and releasing accesses are reads and
-- writes of the block.
pub push_report : ReportBlock → List ℕ → ReportBlock × Bool
push_report r text =
    let next = r.write_sequence in
    if length text == 0
    then (r, false)
    else if leb report_slot_count (sub64 next r.read_sequence)
    then (record r { dropped = (r.dropped + 1) % 2 ^ 64 }, false)
    else (
      record r {
        slots = set r.slots (next % report_slot_count) (fill_slot (slot_at r.slots next) text);
        write_sequence = (next + 1) % 2 ^ 64;
      },
      true,
    )

pub peek_report : ReportBlock → List ℕ
peek_report r =
    let next = r.read_sequence in
    let slot = slot_at r.slots next in
    if next == r.write_sequence
    then []
    else if ltb (length slot.text) slot.length
    then []
    else take slot.length slot.text

pub consume_report : ReportBlock → ReportBlock
consume_report r =
    let next = r.read_sequence in
    if not (next == r.write_sequence) then record r { read_sequence = (next + 1) % 2 ^ 64 } else r

pub dropped_reports : ReportBlock → ℕ
dropped_reports r = r.dropped

pub set_message : StatusBlock → List ℕ → StatusBlock
set_message s message =
    let size = min (length message) message_capacity in
    record s {
      message = take size message ++ replicate (message_capacity - size) 0;
      message_size = size % 2 ^ 16;
    }

-- `StatusBlock::message_view`.
pub message_view : StatusBlock → List ℕ
message_view s = take s.message_size s.message
