-- ===== src/Graph/Required.antt =====
-- shader_set.cpp: the modules that the chain needs, `resource_id_for` and `required_modules`.
use Prim.Native.String.{String}
use lsfg_nx.Base.{
  ℕ, ◌+◌, ◌*◌, ◌%◌, ◌^◌, Bool, false, ◌||◌, List, [], ◌∷◌, ◌++◌, ltb, leb, ◌==◌, if◌then◌else◌,
}
use lsfg_nx.Error.{ErrorCode}
use lsfg_nx.Outcome.{Outcome, done, failed, ◌>>=◌}
use lsfg_nx.Graph.Shaders.{ChainSlot, chain_slots, block_of, minimum_block_size}

pub data Precision : Type 0 where
  low : Precision
  high : Precision

pub record ShaderSet : Type 0 where
  pub first_resource_id : ℕ
  pub block_size : ℕ
  pub low_precision_block : ℕ
  pub high_precision_block : ℕ

pub record ModuleRequest : Type 0 where
  pub name : String
  pub block_index : ℕ
  pub resource_id : ℕ

abbrev pub precision_block : ShaderSet → Precision → ℕ
precision_block set Precision.low = set.low_precision_block
precision_block set Precision.high = set.high_precision_block

abbrev pub resource_id_for : ShaderSet → Precision → ℕ → ℕ
resource_id_for set precision block_index =
    (set.first_resource_id + precision_block set precision * set.block_size + block_index) % 2 ^ 32

-- `already_present`.
unfoldable pub already_present : ℕ → List ModuleRequest → Bool
already_present block_index [] = false
already_present block_index (request ∷ out) =
    request.block_index == block_index || already_present block_index out

-- What a slot adds.
abbrev pub request_for : ShaderSet → Precision → ChainSlot → ℕ → ModuleRequest
request_for set precision slot block_index = record {
  name = slot.name;
  block_index = block_index;
  resource_id = resource_id_for set precision block_index;
}

abbrev pub add_request :
    ShaderSet → Precision → ChainSlot → ℕ → List ModuleRequest → List ModuleRequest
add_request set precision slot block_index out =
    if already_present block_index out
    then out
    else out ++ (request_for set precision slot block_index ∷ [])

-- The loop over the slots of the chain.
unfoldable pub add_requests :
    ShaderSet
    → Precision
    → Bool
    → List ChainSlot
    → List ModuleRequest
    → Outcome (List ModuleRequest)
add_requests set precision performance [] out = done out
add_requests set precision performance (slot ∷ slots) out =
    let block_index = block_of performance slot in
    let rest =
      add_requests set precision performance slots
        (add_request set precision slot block_index out) in
    if leb set.block_size block_index then failed ErrorCode.shader_set_unknown else rest

-- `std::ranges::sort` by block.
unfoldable pub insert : ModuleRequest → List ModuleRequest → List ModuleRequest
insert request [] = request ∷ []
insert request (other ∷ out) =
    let rest = insert request out in
    if ltb request.block_index other.block_index then request ∷ other ∷ out else other ∷ rest

unfoldable pub sort_requests : List ModuleRequest → List ModuleRequest
sort_requests [] = []
sort_requests (request ∷ out) = insert request (sort_requests out)

unfoldable pub required_modules : ShaderSet → Precision → Bool → Outcome (List ModuleRequest)
required_modules set precision performance =
    if ltb set.block_size minimum_block_size
    then failed ErrorCode.shader_set_unknown
    else (add_requests set precision performance chain_slots [] >>= λ out. done (sort_requests out))
