-- ===== src/Graph/Wraps.antt =====
-- image_graph.cpp: a sum that wraps past the guard of `validate`.
use lsfg_nx.Base.{
  ℕ, length-append, ◌∙◌, ◌+◌, ◌^◌, ◌≤◌, ◌<◌, ◌≡◌, ◌||◌, Bool, true, ltb, ◌==◌, arith, false, length,
  get_elem?-beyond, leb, List, [], ◌∷◌, ◌++◌, refl,
}
use lsfg_nx.Error.{ErrorCode}
use lsfg_nx.Check.{Check, go, stop, fault, reject, for_range, read, each, ◌>>◌}
use lsfg_nx.Check.Laws.{for_range-first, >>-go}
use lsfg_nx.Graph.{DispatchEntry, Graph, add32}
use lsfg_nx.Graph.Shaders.{slot_index, invalid_slot}
use lsfg_nx.Graph.Validate.{
  image_count, check_image, check_variant, check_binding, check_dispatch, validate,
}

three_passed :
    (a b c : Bool) (e : ErrorCode) (k : Check)
    → (reject a e >> (reject b e >> (reject c e >> k))) ≡ go
    → (a ≡ false) × (b ≡ false) × (c ≡ false)
three_passed true b c e k h = cc
three_passed false true c e k h = cc
three_passed false false true e k h = cc
three_passed false false false e k h = (refl, refl, refl)

-- The three tests before the loop, which a dispatch that is accepted passes.
guards :
    (g : Graph) (d : DispatchEntry)
    → check_dispatch g d ≡ go
    → ((leb 26 d.slot || leb (image_count g) d.grid_image) ≡ false)
      × ((d.variant_count == 0 || ltb (length g.variants) (add32 d.variant_first d.variant_count))
          ≡ false)
      × (ltb g.config.generated_frames d.stage ≡ false)
unfolding check_dispatch
guards g d ok =
    let run = λ (offset : ℕ). read g.variants (add32 d.variant_first offset) (check_variant g d) in
    three_passed _ _ _ ErrorCode.cache_integrity_failure (for_range 0 d.variant_count run) ok

-- Where the offset of the first variant is so large that the 32-bit sum wraps to a small number,
-- the guard passes, and the next read is outside the list of variants.
check_dispatch-fault :
    (g : Graph) (d : DispatchEntry) (first : ℕ)
    → check_dispatch g d ≡ go
    → d.variant_count < 2 ^ 16
    → length g.variants ≤ first
    → first < 2 ^ 32
    → 2 ^ 32 ≤ first + d.variant_count
    → first + d.variant_count ≤ 2 ^ 32 + length g.variants
    → check_dispatch g (record d { variant_first = first }) ≡ fault
unfolding check_dispatch
check_dispatch-fault g d first ok f j k l m =
    let (slot_in, count_in, stage_in) = guards g d ok in
    let passes : leb (length g.variants + 1) (add32 first d.variant_count) ≡ false = ground arith in
    let here : add32 first 0 ≡ first = omega arith in
    let some_ : 0 < d.variant_count = ground (arith, count_in) in
    ground (
      arith,
      slot_in,
      stage_in,
      passes,
      for_range-first 0 d.variant_count
          (λ offset.
            read g.variants (add32 first offset)
              (check_variant g (record d { variant_first = first })))
          some_,
      get_elem?-beyond g.variants first j,
      here,
    )

each-fault :
    {A : Type 0} (before after : List A) (a b : A) (body : A → Check)
    → each (before ++ (a ∷ after)) body ≡ go
    → body b ≡ fault
    → each (before ++ (b ∷ after)) body ≡ fault
unfolding each
each-fault [] after a b body h k = rw k refl
each-fault (x ∷ before) after a b body h k =
    let (here, later) = (>>-go (body x) (each (before ++ (a ∷ after)) body)).0 h in
    rw here (each-fault before after a b body later k)

each-passed :
    {A : Type 0} (before after : List A) (a : A) (body : A → Check)
    → each (before ++ (a ∷ after)) body ≡ go
    → body a ≡ go
unfolding each
each-passed [] after a body h = ((>>-go (body a) (each after body)).0 h).0
each-passed (x ∷ before) after a body h =
    each-passed before after a body ((>>-go (body x) (each (before ++ (a ∷ after)) body)).0 h).1

-- Where the tests before the last step pass, the outcome is that of the last step.
last_step :
    (a b c : Bool) (e f s : ErrorCode) (images k other : Check)
    → (reject a e >> (reject b f >> (images >> (reject c s >> k)))) ≡ go
    → (k ≡ go) × ((reject a e >> (reject b f >> (images >> (reject c s >> other)))) ≡ other)
last_step true b c e f s images k other h = cc
last_step false true c e f s images k other h = cc
last_step false false true e f s go k other h = cc
last_step false false true e f s (stop i) k other h = cc
last_step false false true e f s fault k other h = cc
last_step false false false e f s go k other h = (h, refl)
last_step false false false e f s (stop i) k other h = cc
last_step false false false e f s fault k other h = cc

-- A graph with other dispatches, as many.
abbrev pub with_dispatches : Graph → List DispatchEntry → Graph
with_dispatches g dispatches = record g { dispatches = dispatches }

validate_dispatches :
    (g : Graph) (before after : List DispatchEntry) (d e : DispatchEntry)
    → validate (with_dispatches g (before ++ (d ∷ after))) ≡ go
    → (each (before ++ (d ∷ after)) (check_dispatch g) ≡ go)
      × (validate (with_dispatches g (before ++ (e ∷ after)))
          ≡ each (before ++ (e ∷ after)) (check_dispatch g))
unfolding validate check_dispatch check_variant check_binding
validate_dispatches g before after d e h =
    let count : length (before ++ (e ∷ after)) ≡ length (before ++ (d ∷ after)) =
      omega (arith, length-append before (d ∷ after), length-append before (e ∷ after)) in
    let frames = g.config.generated_frames in
    rw count (
      last_step (frames == 0 || ltb 3 frames)
        (leb (image_count g) (2 + frames) || length (before ++ (d ∷ after)) == 0)
        (slot_index "generate" == invalid_slot) ErrorCode.invalid_argument
        ErrorCode.cache_integrity_failure ErrorCode.invalid_state
        (for_range 0 (image_count g) (λ index. read g.images index (check_image frames index)))
        (each (before ++ (d ∷ after)) (check_dispatch g))
        (each (before ++ (e ∷ after)) (check_dispatch g)) h)

-- Where `validate` accepts a graph, moving the first variant of one dispatch so far out that the
-- 32-bit sum with its count wraps to a number within the list makes it read outside the list of
-- variants.
pub validate-fault :
    (g : Graph) (before after : List DispatchEntry) (d : DispatchEntry) (first : ℕ)
    → validate (with_dispatches g (before ++ (d ∷ after))) ≡ go
    → d.variant_count < 2 ^ 16
    → length g.variants ≤ first
    → first < 2 ^ 32
    → 2 ^ 32 ≤ first + d.variant_count
    → first + d.variant_count ≤ 2 ^ 32 + length g.variants
    → validate (with_dispatches g (before ++ (record d { variant_first = first } ∷ after))) ≡ fault
validate-fault g before after d first ok f j k l m =
    let moved : DispatchEntry = record d { variant_first = first } in
    let (run, e) = validate_dispatches g before after d moved ok in
    let own : check_dispatch g d ≡ go = each-passed before after d (check_dispatch g) run in
    e
    ∙ each-fault before after d moved (check_dispatch g) run
        (check_dispatch-fault g d first own f j k l m)
