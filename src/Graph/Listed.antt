-- ===== src/Graph/Listed.antt =====
-- shader_set.cpp: when `required_modules` lists the modules, and when it refuses.
use native.Mathlib.Decide.{dec_le}
use lsfg_nx.Base.{
  ℕ, ◌≤◌, ◌<◌, ◌≡◌, ◌⊎◌, inl, inr, refl, ap, arith, Bool, true, false, List, [], ◌∷◌, ltb, leb,
  Bool-cases,
}
use lsfg_nx.Error.{ErrorCode}
use lsfg_nx.Outcome.{done, failed, ◌>>=◌}
use lsfg_nx.Graph.Shaders.{ChainSlot, chain_slots, block_of}
use lsfg_nx.Graph.Required.{
  Precision, ShaderSet, ModuleRequest, add_request, add_requests, sort_requests, required_modules,
}
use lsfg_nx.Graph.Covers.{add_requests-Adds}
use lsfg_nx.Graph.Sorted.{
  needed, chain_below, Lists, All-sort_requests, Ascending-sort_requests, Contains-blocks-sort,
}

-- Some slot of a list has a block from `n` on.
abbrev pub Beyond : ℕ → Bool → List ChainSlot → Type 0
Beyond n performance [] = ⊥
Beyond n performance (slot ∷ slots) = (n ≤ block_of performance slot) ⊎ Beyond n performance slots

add_requests-refused :
    (set : ShaderSet) (precision : Precision) (performance : Bool) (slots : List ChainSlot)
    (out : List ModuleRequest)
    → Beyond set.block_size performance slots
    → add_requests set precision performance slots out ≡ failed ErrorCode.shader_set_unknown
unfolding add_requests
add_requests-refused set precision performance [] out h = absurd h
add_requests-refused set precision performance (slot ∷ slots) out h =
    let b = block_of performance slot in
    elim (Bool-cases (leb set.block_size b)) [
      | inl outside ↦ rw outside refl
      | inr inside ↦ elim h [
        | inl here ↦ absurd (ground (arith, here, inside))
        | inr later ↦ rw inside (
            add_requests-refused set precision performance slots
              (add_request set precision slot b out) later)
      ]
    ]

-- The tenth slot has the last block where the performance variants are used.
chain-Beyond : (n : ℕ) → n < 49 → Beyond n true chain_slots
chain-Beyond n h = inr (inr (inr (inr (inr (inr (inr (inr (inr (inl (omega (arith, h)))))))))))

module _ (set : ShaderSet) (precision : Precision) where
  required_modules-total :
      (performance : Bool)
      → needed performance ≤ set.block_size
      → (out : List ModuleRequest) × (required_modules set precision performance ≡ done out)
        × Lists set precision performance out
  unfolding required_modules
  required_modules-total performance h =
      let (raw, e, adds) =
        add_requests-Adds set precision performance chain_slots []
          (chain_below performance set.block_size h) tt tt in
      let enough : ltb set.block_size 26 ≡ false = at_least performance h in
      (
        sort_requests raw,
        rw enough (ap (λ m. m >>= λ out. done (sort_requests out)) e),
        record {
          ascending = Ascending-sort_requests raw adds.apart;
          located = All-sort_requests _ raw adds.located;
          exact = λ b.
              let (f, g) = adds.covers b in
              let (u, v) = Contains-blocks-sort b raw in
              (λ c. elim (f (u c)) [ inl none_ ↦ absurd none_ | inr d ↦ d ], λ d. v (g (inr d)));
        },
      )
    where
      at_least : (p : Bool) → needed p ≤ set.block_size → ltb set.block_size 26 ≡ false
      at_least true k = ground arith
      at_least false k = ground arith

  required_modules-refused :
      (performance : Bool)
      → set.block_size < needed performance
      → required_modules set precision performance ≡ failed ErrorCode.shader_set_unknown
  unfolding required_modules
  required_modules-refused false h =
      let few : ltb set.block_size 26 ≡ true = ground (arith, h) in rw few refl
  required_modules-refused true h = elim (Bool-cases (ltb set.block_size 26)) [
    | inl few ↦ rw few refl
    | inr enough ↦ rw enough (
        ap (λ m. m >>= λ out. done (sort_requests out))
          (add_requests-refused set precision true chain_slots [] (chain-Beyond set.block_size h)))
  ]

-- A set whose blocks have the modules that are needed, 49 where the performance variants are used and
-- else 26, gets the list of the blocks of the chain's slots and no other, ascending and so each once,
-- each with its resource; any smaller set is refused as unknown.
pub required_modules-Lists :
    (set : ShaderSet) (precision : Precision) (performance : Bool)
    → ((needed performance ≤ set.block_size)
        × ((out : List ModuleRequest) × (required_modules set precision performance ≡ done out)
            × Lists set precision performance out))
      ⊎ ((set.block_size < needed performance)
          × (required_modules set precision performance ≡ failed ErrorCode.shader_set_unknown))
required_modules-Lists set precision performance =
    elim (dec_le (needed performance) set.block_size) [
      | yes h ↦ inl (h, required_modules-total set precision performance h)
      | no h ↦
          let small : set.block_size < needed performance = omega (arith, h) in
          inr (small, required_modules-refused set precision performance small)
    ]
