-- ===== src/Dksh/Example.antt =====
-- Small modules for the tests.
use lsfg_nx.Base.{ℕ, ◌/◌, ◌%◌, List, [], ◌∷◌, ◌++◌, replicate}

abbrev pub word : ℕ → List ℕ
word n = n % 256 ∷ n / 256 % 256 ∷ n / 65536 % 256 ∷ n / 16777216 ∷ []

-- A module of a control section and a code section, with a square workgroup and one barrier.
abbrev pub module_of : ℕ → ℕ → ℕ → ℕ → ℕ → List ℕ
module_of entry_point gprs scratch workgroup shared_memory =
    (word 0x4853_4B44 ++ word 24 ++ word 256 ++ word 256 ++ word 24 ++ word 1)
    ++ (word 5 ++ word entry_point ++ word gprs ++ replicate 8 0 ++ word scratch)
    ++ (word workgroup
        ++ word workgroup
        ++ word 1
        ++ word shared_memory
        ++ replicate 12 0
        ++ word 1)
    ++ replicate 432 0
