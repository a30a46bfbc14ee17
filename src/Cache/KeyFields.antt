-- ===== src/Cache/KeyFields.antt =====
-- cache_format.cpp: what `cache_key` hashes.
use lsfg_nx.Base.{ℕ, ◌^◌, ◌<◌, ◌≡◌, ◌↔◌, refl, ap, ◌∙◌, arith, List, [], ◌∷◌, none, some, length}
use lsfg_nx.Hash.{new_hasher, update_field, update_number, encode_be64, finish}
use lsfg_nx.Hash.Stream.{update_all, concat}
use lsfg_nx.Hash.Reference.{reference, finish-update_all}
use lsfg_nx.Hash.Fields.{encode_be64-injective, field-injective}
use lsfg_nx.Cache.Key.{CacheKeyInputs, hash_inputs, cache_key}

-- What the calls pass on.
abbrev key_parts : CacheKeyInputs → List (List ℕ)
key_parts i =
    encode_be64 (length i.dll_bytes)
    ∷ i.dll_bytes
    ∷ encode_be64 i.extractor_version
    ∷ encode_be64 (length i.spirv_cross_revision)
    ∷ i.spirv_cross_revision
    ∷ encode_be64 (length i.uam_revision)
    ∷ i.uam_revision
    ∷ encode_be64 i.translation_options
    ∷ encode_be64 i.graph_options
    ∷ encode_be64 i.backend_abi_version
    ∷ []

abbrev pub key_bytes : CacheKeyInputs → List ℕ
key_bytes i = concat (key_parts i)

-- Numbers of 32 bits, and texts whose sizes have 64.
pub record IsKey (i : CacheKeyInputs) : Type 0 where
  pub dll_bytes : length i.dll_bytes < 2 ^ 64
  pub extractor_version : i.extractor_version < 2 ^ 32
  pub spirv_cross_revision : length i.spirv_cross_revision < 2 ^ 64
  pub uam_revision : length i.uam_revision < 2 ^ 64
  pub translation_options : i.translation_options < 2 ^ 32
  pub graph_options : i.graph_options < 2 ^ 32
  pub backend_abi_version : i.backend_abi_version < 2 ^ 32

hash_inputs_parts : (i : CacheKeyInputs) → hash_inputs i ≡ update_all new_hasher (key_parts i)
unfolding hash_inputs update_field update_number update_all
hash_inputs_parts i = refl

word : (a : ℕ) → a < 2 ^ 32 → a < 2 ^ 64
word a h = omega arith

key_bytes-injective : (a b : CacheKeyInputs) → IsKey a → IsKey b → key_bytes a ≡ key_bytes b → a ≡ b
key_bytes-injective a b v w e =
    let (dll, e1) = field-injective a.dll_bytes b.dll_bytes _ _ v.dll_bytes w.dll_bytes e in
    let (extractor, e2) =
      encode_be64-injective a.extractor_version b.extractor_version _ _ (word _ v.extractor_version)
        (word _ w.extractor_version) e1 in
    let (cross, e3) =
      field-injective a.spirv_cross_revision b.spirv_cross_revision _ _ v.spirv_cross_revision
        w.spirv_cross_revision e2 in
    let (uam, e4) =
      field-injective a.uam_revision b.uam_revision _ _ v.uam_revision w.uam_revision e3 in
    let (options, e5) =
      encode_be64-injective a.translation_options b.translation_options _ _
        (word _ v.translation_options) (word _ w.translation_options) e4 in
    let (graph, e6) =
      encode_be64-injective a.graph_options b.graph_options _ _ (word _ v.graph_options)
        (word _ w.graph_options) e5 in
    let (backend, e7) =
      encode_be64-injective a.backend_abi_version b.backend_abi_version _ _
        (word _ v.backend_abi_version) (word _ w.backend_abi_version) e6 in
    cc (dll, extractor, cross, uam, options, graph, backend)

-- Where the numbers of the inputs have 32 bits and the sizes of their texts 64, the key is the digest
-- of the inputs one after the other, each text after its size and each number in eight bytes, and two
-- inputs have the same bytes just where they are the same.
pub cache_key-splits :
    (a b : CacheKeyInputs)
    → IsKey a
    → IsKey b
    → (cache_key a ≡ some (reference (key_bytes a))) × ((key_bytes a ≡ key_bytes b) ↔ (a ≡ b))
unfolding cache_key
cache_key-splits a b v w =
    let (s, e, _) = finish-update_all (key_parts a) [] in
    (
      ap (λ m. elim m [ none ↦ none | some closed ↦ some closed.1 ])
          (ap finish (hash_inputs_parts a) ∙ e),
      (key_bytes-injective a b v w, ap key_bytes),
    )
