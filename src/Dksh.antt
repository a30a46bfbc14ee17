-- ===== src/Dksh.antt =====
-- common/dksh: the check of a compiled shader module. The machine is little-endian, and a read
-- outside the bytes is a fault.
pub mod Accepts
pub mod Example
mod Tests
use lsfg_nx.Base.{
  ℕ, ◌+◌, ◌*◌, ◌%◌, Bool, not, ◌||◌, List, none, some, ltb, leb, ◌==◌, if◌then◌else◌, length,
  get_elem?,
}
use lsfg_nx.Error.{ErrorCode}
use lsfg_nx.Outcome.{Outcome, done, failed, faulted, ◌>>=◌}

abbrev pub magic : ℕ
magic = 0x4853_4B44

-- `sizeof(FileHeader)`.
abbrev pub file_header_size : ℕ
file_header_size = 24

abbrev pub program_header_size : ℕ
program_header_size = 64

abbrev pub section_alignment : ℕ
section_alignment = 256

-- `ProgramType::compute`.
abbrev pub compute_type : ℕ
compute_type = 5

abbrev pub offset_type : ℕ
offset_type = 0

abbrev pub offset_entry_point : ℕ
offset_entry_point = 4

abbrev pub offset_gprs : ℕ
offset_gprs = 8

abbrev pub offset_per_warp_scratch : ℕ
offset_per_warp_scratch = 20

abbrev pub offset_block_dims : ℕ
offset_block_dims = 24

abbrev pub offset_shared_memory : ℕ
offset_shared_memory = 36

abbrev pub offset_barriers : ℕ
offset_barriers = 52

pub record FileHeader : Type 0 where
  pub magic : ℕ
  pub header_size : ℕ
  pub control_size : ℕ
  pub code_size : ℕ
  pub programs_offset : ℕ
  pub program_count : ℕ

pub record ComputeProgram : Type 0 where
  pub entry_point : ℕ
  pub gprs : ℕ
  pub per_warp_scratch_bytes : ℕ
  pub block_dim_x : ℕ
  pub block_dim_y : ℕ
  pub block_dim_z : ℕ
  pub shared_memory_bytes : ℕ
  pub barriers : ℕ

unfoldable pub read_byte : List ℕ → ℕ → Outcome ℕ
read_byte bytes offset = elim (get_elem? bytes offset) [ none ↦ faulted | some b ↦ done b ]

-- `read_u32`: a copy of four bytes.
unfoldable pub read_u32 : List ℕ → ℕ → Outcome ℕ
read_u32 bytes offset = read_byte bytes offset >>= λ a. read_byte bytes (offset + 1) >>= λ b.
    read_byte bytes (offset + 2) >>= λ c.
    read_byte bytes (offset + 3) >>= λ d. done (a + b * 256 + c * 65536 + d * 16777216)

abbrev pub aligned : ℕ → Bool
aligned value = value % section_alignment == 0

-- The copy of the file header.
unfoldable pub read_header : List ℕ → Outcome FileHeader
read_header bytes = read_u32 bytes 0 >>= λ magic. read_u32 bytes 4 >>= λ header_size.
    read_u32 bytes 8 >>= λ control_size. read_u32 bytes 12 >>= λ code_size.
    read_u32 bytes 16 >>= λ programs_offset. read_u32 bytes 20 >>= λ program_count. done (record {
      magic = magic;
      header_size = header_size;
      control_size = control_size;
      code_size = code_size;
      programs_offset = programs_offset;
      program_count = program_count;
    })

-- The reads of the program header, which starts at `program` in the bytes.
unfoldable pub read_program : List ℕ → ℕ → Outcome ComputeProgram
read_program bytes program = read_u32 bytes (program + offset_entry_point) >>= λ entry_point.
    read_u32 bytes (program + offset_gprs) >>= λ gprs.
    read_u32 bytes (program + offset_per_warp_scratch) >>= λ per_warp_scratch_bytes.
    read_u32 bytes (program + offset_block_dims) >>= λ block_dim_x.
    read_u32 bytes (program + (offset_block_dims + 4)) >>= λ block_dim_y.
    read_u32 bytes (program + (offset_block_dims + 8)) >>= λ block_dim_z.
    read_u32 bytes (program + offset_shared_memory) >>= λ shared_memory_bytes.
    read_u32 bytes (program + offset_barriers) >>= λ barriers. done (record {
      entry_point = entry_point;
      gprs = gprs;
      per_warp_scratch_bytes = per_warp_scratch_bytes;
      block_dim_x = block_dim_x;
      block_dim_y = block_dim_y;
      block_dim_z = block_dim_z;
      shared_memory_bytes = shared_memory_bytes;
      barriers = barriers;
    })

-- The tests of the file header.
unfoldable pub check_header : List ℕ → FileHeader → Outcome FileHeader
check_header bytes header =
    if not (header.magic == magic) || not (header.header_size == file_header_size)
    then failed ErrorCode.cache_integrity_failure
    else if not (aligned header.control_size) || not (aligned header.code_size)
    then failed ErrorCode.cache_integrity_failure
    else if not (header.program_count == 1)
    then failed ErrorCode.unsupported
    else if not (header.control_size + header.code_size == length bytes)
    then failed ErrorCode.cache_integrity_failure
    else if ltb header.programs_offset file_header_size
        || ltb header.control_size (header.programs_offset + program_header_size)
    then failed ErrorCode.cache_integrity_failure
    else done header

-- The tests of the program header.
unfoldable pub check_program : FileHeader → ComputeProgram → Outcome ComputeProgram
check_program header program =
    if program.block_dim_x == 0 || program.block_dim_y == 0 || program.block_dim_z == 0
    then failed ErrorCode.cache_integrity_failure
    else if leb header.code_size program.entry_point
    then failed ErrorCode.cache_integrity_failure
    else done program

-- `validate` after the tests of the file header.
unfoldable pub validate_program : List ℕ → FileHeader → Outcome ComputeProgram
validate_program bytes header = read_u32 bytes (header.programs_offset + offset_type) >>= λ type.
    if type == compute_type
    then (read_program bytes header.programs_offset >>= check_program header)
    else failed ErrorCode.unsupported

-- What a failed call leaves in the program is not modelled.
unfoldable pub validate : List ℕ → Outcome ComputeProgram
validate bytes =
    if ltb (length bytes) file_header_size
    then failed ErrorCode.cache_integrity_failure
    else (read_header bytes >>= λ read. check_header bytes read >>= validate_program bytes)
