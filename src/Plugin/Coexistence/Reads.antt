-- ===== src/Plugin/Coexistence/Reads.antt =====
-- coexistence.cpp: the reads of the shader.
use lsfg_nx.Base.{ℕ, ◌+◌, ◌≤◌, ◌==◌, ltb, ◌≡◌, true, List, none, length, arith}
use lsfg_nx.Outcome.{Returns, Returns-bind, Returns-if, Returns-result}
use lsfg_nx.Dksh.{read_u32}
use lsfg_nx.Dksh.Accepts.{read_u32_total}
use lsfg_nx.Plugin.Coexistence.{Deko}
use lsfg_nx.Plugin.Coexistence.Shader.{
  DkshHeader, copy_header, header_valid, read_scratch, read_shader_header,
}

-- Every read of the shader is inside it.
copy_header_total : (bytes : List ℕ) → 24 ≤ length bytes → Returns (copy_header bytes)
unfolding copy_header
copy_header_total bytes h =
    Returns-bind (read_u32 bytes 0) _ (read_u32_total bytes 0 (omega arith)) (λ magic.
      Returns-bind (read_u32 bytes 4) _ (read_u32_total bytes 4 (omega arith)) (λ header_size.
        Returns-bind (read_u32 bytes 8) _ (read_u32_total bytes 8 (omega arith)) (λ control_size.
          Returns-bind (read_u32 bytes 12) _ (read_u32_total bytes 12 (omega arith)) (λ code_size.
            Returns-bind (read_u32 bytes 16) _ (read_u32_total bytes 16 (omega arith))
              (λ programs_offset.
                Returns-bind (read_u32 bytes 20) _ (read_u32_total bytes 20 (omega arith))
                  (λ program_count. Returns-result _))))))

read_scratch_total :
    (dk : Deko) (bytes : List ℕ) (out : DkshHeader)
    → header_valid dk bytes out ≡ true
    → Returns (read_scratch bytes out)
unfolding read_scratch
read_scratch_total dk bytes out h =
    let bound : out.programs_offset + 64 ≤ length bytes = ground arith in
    Returns-bind (read_u32 bytes out.programs_offset) _
      (read_u32_total bytes out.programs_offset (omega arith))
      (λ type.
        Returns-if (type == 5) _ _
          (λ _.
            Returns-bind (read_u32 bytes (out.programs_offset + 20)) _
              (read_u32_total bytes (out.programs_offset + 20) (omega arith))
              (λ scratch. Returns-result _))
          (λ _. Returns-result none))

pub read_shader_header_total : (dk : Deko) (bytes : List ℕ) → Returns (read_shader_header dk bytes)
unfolding read_shader_header
read_shader_header_total dk bytes =
    Returns-if (ltb (length bytes) 24) _ _ (λ _. Returns-result none)
      (λ long. Returns-bind (copy_header bytes) _ (copy_header_total bytes (ground arith)) (λ out.
        Returns-if (header_valid dk bytes out) _ _ (λ h. read_scratch_total dk bytes out h)
          (λ _. Returns-result none)))
