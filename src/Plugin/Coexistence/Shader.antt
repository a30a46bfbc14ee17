-- ===== src/Plugin/Coexistence/Shader.antt =====
-- coexistence.cpp: the header of the shader, the size of its memory, and the layout of a texture of
-- the game.
use lsfg_nx.Base.{
  ℕ, ◌+◌, ◌-◌, ◌%◌, ◌^◌, bit_and, bit_or, Bool, not, ◌&&◌, ◌||◌, List, Option, none, some, ltb, leb,
  ◌==◌, if◌then◌else◌, length,
}
use lsfg_nx.Outcome.{Outcome, done, ◌>>=◌}
use lsfg_nx.Dksh.{read_u32}
use lsfg_nx.Plugin.Coexistence.{DkResult, ExternalLayout, LayoutAnswer, Deko}

pub record DkshHeader : Type 0 where
  pub magic : ℕ
  pub header_size : ℕ
  pub control_size : ℕ
  pub code_size : ℕ
  pub programs_offset : ℕ
  pub program_count : ℕ

-- The copy of the header.
unfoldable pub copy_header : List ℕ → Outcome DkshHeader
copy_header bytes = read_u32 bytes 0 >>= λ magic. read_u32 bytes 4 >>= λ header_size.
    read_u32 bytes 8 >>= λ control_size. read_u32 bytes 12 >>= λ code_size.
    read_u32 bytes 16 >>= λ programs_offset. read_u32 bytes 20 >>= λ program_count. done (record {
      magic = magic;
      header_size = header_size;
      control_size = control_size;
      code_size = code_size;
      programs_offset = programs_offset;
      program_count = program_count;
    })

-- The tests of `read_shader_header` before the type of the program is read.
abbrev pub header_valid : Deko → List ℕ → DkshHeader → Bool
header_valid dk bytes out =
    out.magic == 0x4853_4B44
    && out.header_size == 24
    && out.control_size % dk.shader_code_alignment == 0
    && out.code_size % dk.shader_code_alignment == 0
    && out.control_size + out.code_size == length bytes
    && out.program_count == 1
    && leb 24 out.programs_offset
    && leb (out.programs_offset + 64) out.control_size

-- The reads of the program, whose type is tested first.
unfoldable pub read_scratch : List ℕ → DkshHeader → Outcome (Option (DkshHeader × ℕ))
read_scratch bytes out = read_u32 bytes out.programs_offset >>= λ type.
    if type == 5
    then (read_u32 bytes (out.programs_offset + 20) >>= λ scratch. done (some (out, scratch)))
    else done none

-- The header and the scratch memory of a warp; `none` where the shader is not valid.
unfoldable pub read_shader_header : Deko → List ℕ → Outcome (Option (DkshHeader × ℕ))
read_shader_header dk bytes =
    if ltb (length bytes) 24
    then done none
    else (copy_header bytes >>= λ out.
        if header_valid dk bytes out then read_scratch bytes out else done none)

unfoldable pub code_memory_size : Deko → DkshHeader → ℕ
code_memory_size dk header =
    let needed = header.code_size + dk.shader_code_unusable in
    let rounded =
      bit_and ((needed + (dk.memory_block_alignment - 1)) % 2 ^ 64) dk.memory_block_mask in
    if leb rounded 0xFFFF_FFFF then rounded else 0

-- `ExternalLayout::valid`.
unfoldable pub layout_valid : ExternalLayout → Bool
layout_valid l =
    not (l.width == 0)
    && not (l.height == 0)
    && not (l.storage_size == 0)
    && not (l.storage_alignment == 0)
    && bit_and l.storage_alignment (l.storage_alignment - 1) == 0
    && leb l.storage_offset l.pool_size
    && leb l.storage_size (l.pool_size - l.storage_offset)
    && bit_and l.storage_offset (l.storage_alignment - 1) == 0

-- The test of `reconstruct_external_layout`.
unfoldable pub layout_refused : Deko → ExternalLayout → Bool
layout_refused dk l =
    not (layout_valid l)
    || not (l.format == 37)
    || not (l.flags == 0x0D)
    || not (l.target == 1)
    || not (l.pool_flags == 0xA1)
    || not (l.storage_class == bit_or 0x100 dk.compressed_kind)
    || not (l.depth == 1)
    || not (l.levels == 1)
    || not (l.samples == 0)
    || not (l.stride == 0)
    || ltb 0xFFFF_FFFF l.storage_alignment

-- `reconstruct_external_layout`, with what the library says of the layout after it.
unfoldable pub reconstruct_external_layout : Deko → ExternalLayout → LayoutAnswer
reconstruct_external_layout dk l =
    if layout_refused dk l then record dk.untouched { result = DkResult.bad_input } else dk.applied
