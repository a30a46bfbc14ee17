-- ===== src/Hash/Tests.antt =====
-- The theorems on common/hash, and the digest of "abc".
use lsfg_nx.Base.{ℕ, ◌≡◌, refl, List, [], ◌∷◌, some}
use lsfg_nx.Hash.{
  Sha256, new_hasher, compress_blocks, update_blocks, fill_buffer, update, pad_zeros, close, finish,
  sha256, to_hex,
}
use lsfg_nx.Hash.Compress.{compress}
use lsfg_nx.Hash.Stream.{update_all}
use lsfg_nx.Hash.Reference.{reference, finish-update_all}

abbrev abc : List ℕ
abc = b'a' ∷ b'b' ∷ b'c' ∷ []

abc_digest :
    sha256 abc
    ≡ some (
        0xba ∷ 0x78 ∷ 0x16 ∷ 0xbf ∷ 0x8f ∷ 0x01 ∷ 0xcf ∷ 0xea ∷ 0x41 ∷ 0x41 ∷ 0x40 ∷ 0xde ∷ 0x5d
        ∷ 0xae ∷ 0x22 ∷ 0x23 ∷ 0xb0 ∷ 0x03 ∷ 0x61 ∷ 0xa3 ∷ 0x96 ∷ 0x17 ∷ 0x7a ∷ 0x9c ∷ 0xb4 ∷ 0x10
        ∷ 0xff ∷ 0x61 ∷ 0xf2 ∷ 0x00 ∷ 0x15 ∷ 0xad ∷ [])
unfolding sha256 finish close pad_zeros update update_blocks fill_buffer compress_blocks compress
abc_digest = refl

hex_text : to_hex (0xba ∷ 0x7 ∷ []) ≡ b'b' ∷ b'a' ∷ b'0' ∷ b'7' ∷ []
unfolding to_hex
hex_text = refl

abbrev two_parts : List (List ℕ)
two_parts = (b'a' ∷ []) ∷ (b'b' ∷ b'c' ∷ []) ∷ []

finish-update_all_example :
    (s : Sha256) × (finish (update_all new_hasher two_parts) ≡ some (s, reference abc))
    × (finish (update_all s (abc ∷ [])) ≡ some (s, reference abc))
finish-update_all_example = finish-update_all two_parts (abc ∷ [])
