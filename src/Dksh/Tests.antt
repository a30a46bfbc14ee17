-- ===== src/Dksh/Tests.antt =====
-- The theorems on common/dksh at a small module.
use lsfg_nx.Base.{ℕ, ◌↔◌, ◌≡◌, refl, List}
use lsfg_nx.Outcome.{done, Safe}
use lsfg_nx.Dksh.{
  ComputeProgram, read_byte, read_u32, read_header, read_program, check_header, check_program,
  validate_program, validate,
}
use lsfg_nx.Dksh.Example.{word, module_of}
use lsfg_nx.Dksh.Accepts.{Holds, validate-Safe, validate_module_iff}

abbrev small_module : List ℕ
small_module = module_of 128 32 64 8 1024

abbrev small_program : ComputeProgram
small_program = record {
  entry_point = 128;
  gprs = 32;
  per_warp_scratch_bytes = 64;
  block_dim_x = 8;
  block_dim_y = 8;
  block_dim_z = 1;
  shared_memory_bytes = 1024;
  barriers = 1;
}

small_module_valid : validate small_module ≡ done small_program
unfolding validate read_header read_u32 read_byte check_header validate_program read_program
    check_program
small_module_valid = refl

validate_module_iff_example :
    (validate small_module ≡ done small_program) ↔ Holds small_module small_program
validate_module_iff_example = validate_module_iff small_module small_program

validate-Safe_example : Safe (validate (word 0x4853_4B44))
validate-Safe_example = validate-Safe (word 0x4853_4B44)
