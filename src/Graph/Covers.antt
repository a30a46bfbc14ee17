-- ===== src/Graph/Covers.antt =====
-- shader_set.cpp: what `required_modules` lists.
use lsfg_nx.Base.{
  ℕ, ◌<◌, ◌≡◌, ◌≢◌, ◌↔◌, ◌⊎◌, inl, inr, refl, sym, arith, subst, Bool, true, false, List, [], ◌∷◌,
  ◌++◌, leb, ◌==◌, Bool-cases, if◌then◌else◌, All, All-append, Contains,
}
use lsfg_nx.Outcome.{done}
use lsfg_nx.Graph.Shaders.{ChainSlot, block_of}
use lsfg_nx.Graph.Required.{
  Precision, ShaderSet, ModuleRequest, resource_id_for, already_present, request_for, add_request,
  add_requests,
}

-- The blocks of some requests, and those of some slots.
abbrev pub blocks : List ModuleRequest → List ℕ
blocks [] = []
blocks (request ∷ out) = request.block_index ∷ blocks out

abbrev pub slot_blocks : Bool → List ChainSlot → List ℕ
slot_blocks performance [] = []
slot_blocks performance (slot ∷ slots) = block_of performance slot ∷ slot_blocks performance slots

abbrev pub Ascending : List ModuleRequest → Type 0
Ascending [] = Unit
Ascending (request ∷ out) =
    All (λ other. request.block_index < other.block_index) out × Ascending out

-- No block is there twice.
abbrev pub AllApart : List ModuleRequest → Type 0
AllApart [] = Unit
AllApart (request ∷ out) = All (λ other. request.block_index ≢ other.block_index) out × AllApart out

-- The resource of a request is that of its block.
abbrev pub Located : ShaderSet → Precision → List ModuleRequest → Type 0
Located set precision out =
    All (λ request. request.resource_id ≡ resource_id_for set precision request.block_index) out

already_present_iff :
    (b : ℕ) (out : List ModuleRequest) → (already_present b out ≡ true) ↔ Contains b (blocks out)
unfolding already_present
already_present_iff b [] = (λ h. cc, λ h. absurd h)
already_present_iff b (r ∷ out) =
    let (f, g) = already_present_iff b out in
    elim (Bool-cases (r.block_index == b)) [
      | inl same ↦ (λ h. inl (ground arith), λ h. ground arith)
      | inr other ↦ (
        λ h. inr (f (ground arith)),
        λ h. elim h [ inl e ↦ absurd (ground arith) | inr c ↦ let t = g c in ground arith ],
      )
    ]

-- A request at the end.
Contains-blocks_append :
    (b : ℕ) (out : List ModuleRequest) (r : ModuleRequest)
    → Contains b (blocks (out ++ (r ∷ []))) ↔ (Contains b (blocks out) ⊎ (b ≡ r.block_index))
Contains-blocks_append b [] r = (
  λ h. elim h [ inl e ↦ inr e | inr c ↦ inl c ],
  λ h. elim h [ inl c ↦ absurd c | inr e ↦ inl e ],
)
Contains-blocks_append b (s ∷ out) r =
    let (f, g) = Contains-blocks_append b out r in
    (
      λ h. elim h [
        | inl e ↦ inl (inl e)
        | inr c ↦ elim (f c) [ inl d ↦ inl (inr d) | inr e ↦ inr e ]
      ],
      λ h. elim h [
        | inl c ↦ elim c [ inl e ↦ inl e | inr d ↦ inr (g (inl d)) ]
        | inr e ↦ inr (g (inr e))
      ],
    )

absent-apart :
    (b : ℕ) (out : List ModuleRequest)
    → already_present b out ≡ false
    → All (λ r. r.block_index ≢ b) out
unfolding already_present
absent-apart b [] h = tt
absent-apart b (r ∷ out) h = (λ e. ground arith, absent-apart b out (ground arith))

AllApart-append :
    (out : List ModuleRequest) (r : ModuleRequest)
    → AllApart out
    → All (λ s. s.block_index ≢ r.block_index) out
    → AllApart (out ++ (r ∷ []))
AllApart-append [] r h k = (tt, tt)
AllApart-append (s ∷ out) r h k =
    (All-append _ out (r ∷ []) h.0 (k.0, tt), AllApart-append out r h.1 k.1)

module _ (set : ShaderSet) (precision : Precision) (performance : Bool) where
  -- What a list of requests is after some slots.
  pub record Adds (before : List ModuleRequest) (bs : List ℕ) (out : List ModuleRequest)
      : Type 0 where
    pub apart : AllApart out
    pub located : Located set precision out
    pub covers : (b : ℕ) → Contains b (blocks out) ↔ (Contains b (blocks before) ⊎ Contains b bs)

  add_request-Adds :
      (slot : ChainSlot) (b : ℕ) (out : List ModuleRequest)
      → AllApart out
      → Located set precision out
      → Adds out (b ∷ []) (add_request set precision slot b out)
  add_request-Adds slot b out h k = elim (Bool-cases (already_present b out)) [
    | inl there ↦
        subst
          (λ c.
            Adds out (b ∷ []) (if c then out else out ++ (request_for set precision slot b ∷ [])))
          (sym there)
          (record {
            apart = h;
            located = k;
            covers = λ a. (
              inl,
              λ c. elim c [
                | inl d ↦ d
                | inr e ↦ elim e [
                  | inl same ↦
                      subst (λ x. Contains x (blocks out)) (sym same)
                        ((already_present_iff b out).0 there)
                  | inr none_ ↦ absurd none_
                ]
              ],
            );
          })
    | inr absent ↦
        subst
          (λ c.
            Adds out (b ∷ []) (if c then out else out ++ (request_for set precision slot b ∷ [])))
          (sym absent)
          (record {
            apart =
                AllApart-append out (request_for set precision slot b) h
                  (absent-apart b out absent);
            located = All-append _ out (request_for set precision slot b ∷ []) k (refl, tt);
            covers = λ a.
                let (f, g) = Contains-blocks_append a out (request_for set precision slot b) in
                (
                  λ c. elim (f c) [ inl d ↦ inl d | inr e ↦ inr (inl e) ],
                  λ c. g (elim c [
                    | inl d ↦ inl d
                    | inr e ↦ elim e [ inl same ↦ inr same | inr none_ ↦ absurd none_ ]
                  ]),
                );
          })
  ]

  pub add_requests-Adds :
      (slots : List ChainSlot) (out : List ModuleRequest)
      → All (λ slot. block_of performance slot < set.block_size) slots
      → AllApart out
      → Located set precision out
      → (result : List ModuleRequest) × (add_requests set precision performance slots out
          ≡ done result)
        × Adds out (slot_blocks performance slots) result
  unfolding add_requests
  add_requests-Adds [] out room h k = (
    out,
    refl,
    record {
      apart = h;
      located = k;
      covers = λ a. (inl, λ c. elim c [ inl d ↦ d | inr none_ ↦ absurd none_ ]);
    },
  )
  add_requests-Adds (slot ∷ slots) out room h k =
      let b = block_of performance slot in
      let next = add_request set precision slot b out in
      let step = add_request-Adds slot b out h k in
      let (result, e, adds) = add_requests-Adds slots next room.1 step.apart step.located in
      let inside : leb set.block_size b ≡ false = ground (arith, room.0) in
      (
        result,
        rw inside e,
        record {
          apart = adds.apart;
          located = adds.located;
          covers = λ a.
              let (f, g) = adds.covers a in
              let (u, v) = step.covers a in
              (
                λ c. elim (f c) [
                  | inl d ↦ elim (u d) [
                    | inl x ↦ inl x
                    | inr y ↦ elim y [ inl same ↦ inr (inl same) | inr none_ ↦ absurd none_ ]
                  ]
                  | inr d ↦ inr (inr d)
                ],
                λ c. elim c [
                  | inl d ↦ g (inl (v (inl d)))
                  | inr d ↦ elim d [ inl same ↦ g (inl (v (inr (inl same)))) | inr x ↦ g (inr x) ]
                ],
              );
        },
      )
