-- ===== src/Error/Codes.antt =====
-- error.hpp, error.cpp: no two codes share a number, and no two share a name.
use lsfg_nx.Base.{◌≡◌, refl, true, arith}
use lsfg_nx.Error.{ErrorCode, code_number, succeeded}

pub succeeded→ok : (c : ErrorCode) → succeeded c ≡ true → c ≡ ErrorCode.ok
unfolding succeeded
succeeded→ok ErrorCode.ok h = refl
succeeded→ok _ h = cc

-- Distinct error codes have distinct numbers, so a code stored in a log or sent over IPC names one
-- error.
pub code_number-injective : (c d : ErrorCode) → code_number c ≡ code_number d → c ≡ d
unfolding code_number
code_number-injective c d h = ground arith
