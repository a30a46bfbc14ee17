-- ===== src/Error.antt =====
-- common/error: the error codes, their stable numbers and their names.
pub mod Codes
use Prim.Native.String.{String}
use lsfg_nx.Base.{ℕ, Bool, true, false}

-- `ErrorCode`.
pub data ErrorCode : Type 0 where
  ok : ErrorCode
  invalid_argument invalid_state out_of_memory io_error timed_out unsupported : ErrorCode
  cache_missing cache_version_mismatch cache_integrity_failure : ErrorCode
  cache_configuration_mismatch : ErrorCode
  shader_set_unknown shader_interface_mismatch shader_compile_failed : ErrorCode
  backend_unavailable backend_dispatch_failed image_layout_unsupported : ErrorCode
  title_not_allowed build_not_allowed hook_install_failed : ErrorCode
  presentation_deadline_missed presentation_sequence_invalid : ErrorCode
  protocol_version_mismatch protocol_message_invalid : ErrorCode
  emergency_bypass : ErrorCode

-- The numbers of the enumerators, which the comment in the source declares stable.
pub code_number : ErrorCode → ℕ
code_number ok = 0x0000_0000
code_number invalid_argument = 0x0000_0001
code_number invalid_state = 0x0000_0002
code_number out_of_memory = 0x0000_0003
code_number io_error = 0x0000_0004
code_number timed_out = 0x0000_0005
code_number unsupported = 0x0000_0006
code_number cache_missing = 0x0001_0001
code_number cache_version_mismatch = 0x0001_0002
code_number cache_integrity_failure = 0x0001_0003
code_number cache_configuration_mismatch = 0x0001_0004
code_number shader_set_unknown = 0x0002_0001
code_number shader_interface_mismatch = 0x0002_0002
code_number shader_compile_failed = 0x0002_0003
code_number backend_unavailable = 0x0003_0001
code_number backend_dispatch_failed = 0x0003_0002
code_number image_layout_unsupported = 0x0003_0003
code_number title_not_allowed = 0x0004_0001
code_number build_not_allowed = 0x0004_0002
code_number hook_install_failed = 0x0004_0003
code_number presentation_deadline_missed = 0x0005_0001
code_number presentation_sequence_invalid = 0x0005_0002
code_number protocol_version_mismatch = 0x0006_0001
code_number protocol_message_invalid = 0x0006_0002
code_number emergency_bypass = 0x0007_0001

unfoldable pub succeeded : ErrorCode → Bool
succeeded ok = true
succeeded _ = false

pub error_name : ErrorCode → String
error_name ok = "ok"
error_name invalid_argument = "invalid_argument"
error_name invalid_state = "invalid_state"
error_name out_of_memory = "out_of_memory"
error_name io_error = "io_error"
error_name timed_out = "timed_out"
error_name unsupported = "unsupported"
error_name cache_missing = "cache_missing"
error_name cache_version_mismatch = "cache_version_mismatch"
error_name cache_integrity_failure = "cache_integrity_failure"
error_name cache_configuration_mismatch = "cache_configuration_mismatch"
error_name shader_set_unknown = "shader_set_unknown"
error_name shader_interface_mismatch = "shader_interface_mismatch"
error_name shader_compile_failed = "shader_compile_failed"
error_name backend_unavailable = "backend_unavailable"
error_name backend_dispatch_failed = "backend_dispatch_failed"
error_name image_layout_unsupported = "image_layout_unsupported"
error_name title_not_allowed = "title_not_allowed"
error_name build_not_allowed = "build_not_allowed"
error_name hook_install_failed = "hook_install_failed"
error_name presentation_deadline_missed = "presentation_deadline_missed"
error_name presentation_sequence_invalid = "presentation_sequence_invalid"
error_name protocol_version_mismatch = "protocol_version_mismatch"
error_name protocol_message_invalid = "protocol_message_invalid"
error_name emergency_bypass = "emergency_bypass"
