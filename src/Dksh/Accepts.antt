-- ===== src/Dksh/Accepts.antt =====
-- dksh.cpp: every read of the check is in bounds, and what it accepts.
use lsfg_nx.Base.{
  ℕ, ◌+◌, ◌%◌, ◌≤◌, ◌<◌, ◌≡◌, ◌↔◌, arith, refl, ap, true, false, ==_iff, if◌then◌else◌, ltb, ◌==◌,
  inl, inr, Bool-cases, ◌∙◌, List, length, get_elem?-total,
}
use lsfg_nx.Error.{ErrorCode}
use lsfg_nx.Outcome.{
  done, failed, ◌>>=◌, >>=-done, Safe, Safe-bind, Safe-if, Returns, Returns-Safe, Returns-result,
  Returns-bind,
}
use lsfg_nx.Dksh.{
  FileHeader, ComputeProgram, read_byte, read_u32, read_header, read_program, check_header,
  check_program, validate_program, validate,
}

read_byte_total :
    (bytes : List ℕ) (offset : ℕ) → offset < length bytes → Returns (read_byte bytes offset)
unfolding read_byte
read_byte_total bytes offset h =
    let (a, e) = get_elem?-total bytes offset h in (a, rw (e, read_byte) refl)

pub read_u32_total :
    (bytes : List ℕ) (offset : ℕ) → offset + 4 ≤ length bytes → Returns (read_u32 bytes offset)
unfolding read_u32
read_u32_total bytes offset h =
    Returns-bind (read_byte bytes offset) _ (read_byte_total bytes offset (omega arith)) (λ a.
      Returns-bind (read_byte bytes (offset + 1)) _
        (read_byte_total bytes (offset + 1) (omega arith))
        (λ b.
          Returns-bind (read_byte bytes (offset + 2)) _
            (read_byte_total bytes (offset + 2) (omega arith))
            (λ c.
              Returns-bind (read_byte bytes (offset + 3)) _
                (read_byte_total bytes (offset + 3) (omega arith)) (λ d. Returns-result _))))

read_header_total : (bytes : List ℕ) → 24 ≤ length bytes → Returns (read_header bytes)
unfolding read_header
read_header_total bytes h =
    Returns-bind (read_u32 bytes 0) _ (read_u32_total bytes 0 (omega arith)) (λ magic.
      Returns-bind (read_u32 bytes 4) _ (read_u32_total bytes 4 (omega arith)) (λ header_size.
        Returns-bind (read_u32 bytes 8) _ (read_u32_total bytes 8 (omega arith)) (λ control_size.
          Returns-bind (read_u32 bytes 12) _ (read_u32_total bytes 12 (omega arith)) (λ code_size.
            Returns-bind (read_u32 bytes 16) _ (read_u32_total bytes 16 (omega arith))
              (λ programs_offset.
                Returns-bind (read_u32 bytes 20) _ (read_u32_total bytes 20 (omega arith))
                  (λ program_count. Returns-result _))))))

read_program_total :
    (bytes : List ℕ) (program : ℕ)
    → program + 64 ≤ length bytes
    → Returns (read_program bytes program)
unfolding read_program
read_program_total bytes program h =
    Returns-bind (read_u32 bytes (program + 4)) _ (read_u32_total bytes (program + 4) (omega arith))
      (λ entry.
        Returns-bind (read_u32 bytes (program + 8)) _
          (read_u32_total bytes (program + 8) (omega arith))
          (λ gprs.
            Returns-bind (read_u32 bytes (program + 20)) _
              (read_u32_total bytes (program + 20) (omega arith))
              (λ scratch.
                Returns-bind (read_u32 bytes (program + 24)) _
                  (read_u32_total bytes (program + 24) (omega arith))
                  (λ x.
                    Returns-bind (read_u32 bytes (program + 28)) _
                      (read_u32_total bytes (program + 28) (omega arith))
                      (λ y.
                        Returns-bind (read_u32 bytes (program + 32)) _
                          (read_u32_total bytes (program + 32) (omega arith))
                          (λ z.
                            Returns-bind (read_u32 bytes (program + 36)) _
                              (read_u32_total bytes (program + 36) (omega arith))
                              (λ shared.
                                Returns-bind (read_u32 bytes (program + 52)) _
                                  (read_u32_total bytes (program + 52) (omega arith))
                                  (λ barriers. Returns-result _))))))))

-- A header whose sections fill the bytes, and whose program header lies in the first of them.
pub record HeaderOk (bytes : List ℕ) (header : FileHeader) : Type 0 where
  pub magic : header.magic ≡ 0x4853_4B44
  pub header_size : header.header_size ≡ 24
  pub aligned : (header.control_size % 256 ≡ 0) × (header.code_size % 256 ≡ 0)
  pub one_program : header.program_count ≡ 1
  pub filled : header.control_size + header.code_size ≡ length bytes
  pub program : (24 ≤ header.programs_offset) × (header.programs_offset + 64 ≤ header.control_size)

check_header_iff :
    (bytes : List ℕ) (read header : FileHeader)
    → (check_header bytes read ≡ done header) ↔ ((read ≡ header) × HeaderOk bytes read)
unfolding check_header
check_header_iff bytes read header = (λ h. ground (arith, h), λ (e, ok). ground (arith, e, ok))

-- A program with a workgroup, whose entry point lies in the code.
pub record ProgramOk (header : FileHeader) (program : ComputeProgram) : Type 0 where
  pub workgroup : (0 < program.block_dim_x) × (0 < program.block_dim_y) × (0 < program.block_dim_z)
  pub entry : program.entry_point < header.code_size

check_program_iff :
    (header : FileHeader) (read program : ComputeProgram)
    → (check_program header read ≡ done program) ↔ ((read ≡ program) × ProgramOk header read)
unfolding check_program
check_program_iff header read program = (λ h. ground (arith, h), λ (e, ok). ground (arith, e, ok))

-- The bytes hold one compute program, read as given, in sections that fill them.
pub record Holds (bytes : List ℕ) (program : ComputeProgram) : Type 0 where
  pub header : FileHeader
  pub header_read : read_header bytes ≡ done header
  pub header_ok : HeaderOk bytes header
  pub type_read : read_u32 bytes (header.programs_offset + 0) ≡ done 5
  pub program_read : read_program bytes header.programs_offset ≡ done program
  pub program_ok : ProgramOk header program

check_header-Safe : (bytes : List ℕ) (read : FileHeader) → Safe (check_header bytes read)
unfolding check_header
check_header-Safe bytes read h = ground (arith, h)

check_program-Safe :
    (header : FileHeader) (read : ComputeProgram) → Safe (check_program header read)
unfolding check_program
check_program-Safe header read h = ground (arith, h)

validate_program-Safe :
    (bytes : List ℕ) (header : FileHeader)
    → HeaderOk bytes header
    → Safe (validate_program bytes header)
unfolding validate_program
validate_program-Safe bytes header ok =
    let base = header.programs_offset in
    let room : base + 64 ≤ length bytes = omega (arith, ok.filled, ok.program) in
    Safe-bind (read_u32 bytes (base + 0)) _
      (Returns-Safe _ (read_u32_total bytes (base + 0) (omega (arith, room))))
      (λ type e.
        Safe-if (type == 5) _ _
          (λ is_compute.
            Safe-bind (read_program bytes base) (check_program header)
              (Returns-Safe _ (read_program_total bytes base room))
              (λ program e. check_program-Safe header program))
          (λ other p. cc))

-- Whatever the bytes, the check reads none outside them.
pub validate-Safe : (bytes : List ℕ) → Safe (validate bytes)
unfolding validate
validate-Safe bytes =
    Safe-if (ltb (length bytes) 24) _ _ (λ short p. cc)
      (λ long.
        Safe-bind (read_header bytes) (λ read. check_header bytes read >>= validate_program bytes)
          (Returns-Safe _ (read_header_total bytes (ground (arith, long))))
          (λ read e.
            Safe-bind (check_header bytes read) (validate_program bytes)
              (check_header-Safe bytes read)
              (λ header c.
                let (same, ok) = (check_header_iff bytes read header).0 c in
                validate_program-Safe bytes header (rw same at ok))))

validate_program-done :
    (bytes : List ℕ) (header : FileHeader) (program : ComputeProgram)
    → validate_program bytes header ≡ done program
    → (read_u32 bytes (header.programs_offset + 0) ≡ done 5)
      × (read_program bytes header.programs_offset ≡ done program)
      × ProgramOk header program
unfolding validate_program
validate_program-done bytes header program h =
    let base = header.programs_offset in
    let (type, a, b) =
      (>>=-done (read_u32 bytes (base + 0)) (λ type.
          if type == 5
          then (read_program bytes base >>= check_program header)
          else failed ErrorCode.unsupported))
        h in
    let compute : (type == 5) ≡ true = ground (arith, b) in
    let (read, c, d) =
      (>>=-done (read_program bytes base) (check_program header)) (rw compute at b) in
    let (same, ok) = (check_program_iff header read program).0 d in
    (a ∙ ap done ((==_iff type 5).0 compute), c ∙ ap done same, rw same at ok)

-- The check returns a program just where the bytes hold it.
pub validate_module_iff :
    (bytes : List ℕ) (program : ComputeProgram)
    → (validate bytes ≡ done program) ↔ Holds bytes program
unfolding validate validate_program
validate_module_iff bytes program = (
  found,
  λ h.
      let long : ltb (length bytes) 24 ≡ false =
        ground (arith, h.header_ok.filled, h.header_ok.program) in
      rw
        (
          long,
          h.header_read,
          (check_header_iff bytes h.header h.header).1 (refl, h.header_ok),
          h.type_read,
          h.program_read,
          (check_program_iff h.header program program).1 (refl, h.program_ok),
        )
        refl,
)
  where
    found : validate bytes ≡ done program → Holds bytes program
    found h = elim (Bool-cases (ltb (length bytes) 24)) [
      | inl short ↦ absurd (ground (arith, h, short))
      | inr long ↦
          let (read, a, b) =
            (>>=-done (read_header bytes)
                (λ read. check_header bytes read >>= validate_program bytes))
              (rw long at h) in
          let (header, c, d) = (>>=-done (check_header bytes read) (validate_program bytes)) b in
          let (same, ok) = (check_header_iff bytes read header).0 c in
          let (e, f, g) = validate_program-done bytes header program d in
          record {
            header = header;
            header_read = a ∙ ap done same;
            header_ok = rw same at ok;
            type_read = e;
            program_read = f;
            program_ok = g;
          }
    ]
