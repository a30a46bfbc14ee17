-- ===== src/Graph/Sorted.antt =====
-- shader_set.cpp: the list of `required_modules` is in the order of the blocks.
use lsfg_nx.Base.{
  ℕ, ◌≤◌, ◌<◌, ◌≡◌, ◌≢◌, ◌↔◌, ◌⊎◌, inl, inr, refl, arith, Bool, true, false, ◌&&◌, List, [], ◌∷◌,
  ltb, Bool-cases, All, All-mono, Contains,
}
use lsfg_nx.Graph.Shaders.{ChainSlot, chain_slots, block_of}
use lsfg_nx.Graph.Required.{Precision, ShaderSet, ModuleRequest, insert, sort_requests}
use lsfg_nx.Graph.Covers.{blocks, slot_blocks, Ascending, AllApart, Located}

All-insert {ℓ} :
    (P : ModuleRequest → Type ℓ) (r : ModuleRequest) (out : List ModuleRequest)
    → P r
    → All P out
    → All P (insert r out)
unfolding insert
All-insert P r [] h k = (h, tt)
All-insert P r (s ∷ out) h k = elim (Bool-cases (ltb r.block_index s.block_index)) [
  | inl before ↦ rw before (h, k)
  | inr after ↦ rw after (k.0, All-insert P r out h k.1)
]

Ascending-insert :
    (r : ModuleRequest) (out : List ModuleRequest)
    → All (λ s. r.block_index ≢ s.block_index) out
    → Ascending out
    → Ascending (insert r out)
unfolding insert
Ascending-insert r [] h k = (tt, tt)
Ascending-insert r (s ∷ out) h k = elim (Bool-cases (ltb r.block_index s.block_index)) [
  | inl before ↦
      let less : r.block_index < s.block_index = ground arith in
      rw before ((less, All-mono _ out (λ t l. omega (arith, less, l)) k.0), k)
  | inr after ↦
      let more : s.block_index < r.block_index = ground (arith, h.0) in
      rw after (All-insert _ r out more k.0, Ascending-insert r out h.1 k.1)
]

Contains-blocks-insert :
    (b : ℕ) (r : ModuleRequest) (out : List ModuleRequest)
    → Contains b (blocks (insert r out)) ↔ ((b ≡ r.block_index) ⊎ Contains b (blocks out))
unfolding insert
Contains-blocks-insert b r [] = (λ h. h, λ h. h)
Contains-blocks-insert b r (s ∷ out) =
    let (f, g) = Contains-blocks-insert b r out in
    elim (Bool-cases (ltb r.block_index s.block_index)) [
      | inl before ↦ rw before (λ h. h, λ h. h)
      | inr after ↦ rw after (
        λ h. elim h [
          | inl e ↦ inr (inl e)
          | inr c ↦ elim (f c) [ inl e ↦ inl e | inr d ↦ inr (inr d) ]
        ],
        λ h. elim h [
          | inl e ↦ inr (g (inl e))
          | inr c ↦ elim c [ inl e ↦ inl e | inr d ↦ inr (g (inr d)) ]
        ],
      )
    ]

pub All-sort_requests {ℓ} :
    (P : ModuleRequest → Type ℓ) (out : List ModuleRequest) → All P out → All P (sort_requests out)
unfolding sort_requests
All-sort_requests P [] h = tt
All-sort_requests P (r ∷ out) h =
    All-insert P r (sort_requests out) h.0 (All-sort_requests P out h.1)

pub Ascending-sort_requests :
    (out : List ModuleRequest) → AllApart out → Ascending (sort_requests out)
unfolding sort_requests
Ascending-sort_requests [] h = tt
Ascending-sort_requests (r ∷ out) h =
    Ascending-insert r (sort_requests out) (All-sort_requests _ out h.0)
      (Ascending-sort_requests out h.1)

pub Contains-blocks-sort :
    (b : ℕ) (out : List ModuleRequest)
    → Contains b (blocks (sort_requests out)) ↔ Contains b (blocks out)
unfolding sort_requests
Contains-blocks-sort b [] = (λ h. h, λ h. h)
Contains-blocks-sort b (r ∷ out) =
    let (f, g) = Contains-blocks-sort b out in
    let (u, v) = Contains-blocks-insert b r (sort_requests out) in
    (
      λ h. elim (u h) [ inl e ↦ inl e | inr c ↦ inr (f c) ],
      λ h. v (elim h [ inl e ↦ inl e | inr c ↦ inr (g c) ]),
    )

-- How many modules a block must have.
abbrev pub needed : Bool → ℕ
needed true = 49
needed false = 26

abbrev all_below : ℕ → Bool → List ChainSlot → Bool
all_below n performance [] = true
all_below n performance (slot ∷ slots) =
    ltb (block_of performance slot) n && all_below n performance slots

below-All :
    (n m : ℕ) (performance : Bool) (slots : List ChainSlot)
    → all_below n performance slots ≡ true
    → n ≤ m
    → All (λ slot. block_of performance slot < m) slots
below-All n m performance [] h k = tt
below-All n m performance (slot ∷ slots) h k =
    (ground arith, below-All n m performance slots (ground arith) k)

pub chain_below :
    (performance : Bool) (m : ℕ)
    → needed performance ≤ m
    → All (λ slot. block_of performance slot < m) chain_slots
chain_below true m h = below-All 49 m true chain_slots refl h
chain_below false m h = below-All 26 m false chain_slots refl h

-- The list that the code promises: in the order of the blocks, each once, the blocks of the slots and no
-- other, each with its resource.
pub record Lists (set : ShaderSet) (precision : Precision) (performance : Bool)
    (out : List ModuleRequest) : Type 0 where
  pub ascending : Ascending out
  pub located : Located set precision out
  pub exact : (b : ℕ) → Contains b (blocks out) ↔ Contains b (slot_blocks performance chain_slots)
