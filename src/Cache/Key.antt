-- ===== src/Cache/Key.antt =====
-- cache_format.cpp: `cache_key`, the digest that names the directory of a cache.
use lsfg_nx.Base.{ℕ, List, Option, none, some}
use lsfg_nx.Hash.{Sha256, new_hasher, update_field, update_number, finish}

pub record CacheKeyInputs : Type 0 where
  pub dll_bytes : List ℕ
  pub extractor_version : ℕ
  pub spirv_cross_revision : List ℕ
  pub uam_revision : List ℕ
  pub translation_options : ℕ
  pub graph_options : ℕ
  pub backend_abi_version : ℕ

-- The hasher before `finish`.
unfoldable pub hash_inputs : CacheKeyInputs → Sha256
hash_inputs inputs =
    let s1 = update_field new_hasher inputs.dll_bytes in
    let s2 = update_number s1 inputs.extractor_version in
    let s3 = update_field s2 inputs.spirv_cross_revision in
    let s4 = update_field s3 inputs.uam_revision in
    let s5 = update_number s4 inputs.translation_options in
    let s6 = update_number s5 inputs.graph_options in update_number s6 inputs.backend_abi_version

unfoldable pub cache_key : CacheKeyInputs → Option (List ℕ)
cache_key inputs = elim (finish (hash_inputs inputs)) [ none ↦ none | some closed ↦ some closed.1 ]
