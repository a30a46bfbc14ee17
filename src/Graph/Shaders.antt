-- ===== src/Graph/Shaders.antt =====
-- common/shader-set: the slots of the shader chain and the modules that they need.
use Prim.Native.String.{String}
use text.Mathlib.Text.{◌==◌ as str_eq}
use lsfg_nx.Base.{ℕ, suc, ◌+◌, Bool, true, false, ◌&&◌, List, [], ◌∷◌, if◌then◌else◌}

pub record ChainSlot : Type 0 where
  pub name : String
  pub block_index : ℕ
  pub has_performance_variant : Bool

abbrev chain_slot : String → ℕ → Bool → ChainSlot
chain_slot name block_index variant = record {
  name = name;
  block_index = block_index;
  has_performance_variant = variant;
}

-- `chain`, which `chain_slots` returns.
abbrev pub chain_slots : List ChainSlot
chain_slots =
    chain_slot "mipmaps" 1 false
    ∷ chain_slot "alpha.0" 13 true
    ∷ chain_slot "alpha.1" 14 true
    ∷ chain_slot "alpha.2" 15 true
    ∷ chain_slot "alpha.3" 16 true
    ∷ chain_slot "beta.0" 21 true
    ∷ chain_slot "beta.1" 22 true
    ∷ chain_slot "beta.2" 23 true
    ∷ chain_slot "beta.3" 24 true
    ∷ chain_slot "beta.4" 25 true
    ∷ chain_slot "gamma.0" 3 true
    ∷ chain_slot "gamma.1" 5 true
    ∷ chain_slot "gamma.2" 6 true
    ∷ chain_slot "gamma.3" 7 true
    ∷ chain_slot "gamma.4" 8 true
    ∷ chain_slot "delta.0" 3 true
    ∷ chain_slot "delta.1" 9 true
    ∷ chain_slot "delta.2" 10 true
    ∷ chain_slot "delta.3" 11 true
    ∷ chain_slot "delta.4" 12 true
    ∷ chain_slot "delta.5" 4 true
    ∷ chain_slot "delta.6" 17 true
    ∷ chain_slot "delta.7" 18 true
    ∷ chain_slot "delta.8" 19 true
    ∷ chain_slot "delta.9" 20 true
    ∷ chain_slot "generate" 2 false
    ∷ []

abbrev pub performance_offset : ℕ
performance_offset = 23

abbrev pub minimum_block_size : ℕ
minimum_block_size = 26

-- The block of a slot for a configuration.
abbrev pub block_of : Bool → ChainSlot → ℕ
block_of performance slot =
    slot.block_index
    + (if performance && slot.has_performance_variant then performance_offset else 0)

abbrev pub invalid_slot : ℕ
invalid_slot = 0xFFFF_FFFF

-- `graph::slot_index`.
abbrev pub slot_search : List ChainSlot → ℕ → String → ℕ
slot_search [] index name = invalid_slot
slot_search (slot ∷ slots) index name =
    let rest = slot_search slots (suc index) name in if str_eq slot.name name then index else rest

abbrev pub slot_index : String → ℕ
slot_index name = slot_search chain_slots 0 name
