-- ===== src/Backend/Load/Total.antt =====
-- cache_load.cpp: what an accepted plan promises.
use lsfg_nx.Base.{
  ℕ, ◌≤◌, ◌≡◌, suc, arith, ap, subst, sym, ◌∙◌, List, [], ◌∷◌, ◌++◌, All-map, map, All,
}
use lsfg_nx.Graph.Extent.{sum_bytes, flow_extent, owned_memory_bytes}
use lsfg_nx.Cache.Store.{LoadedPass, Loaded}
use lsfg_nx.Backend.Load.Module.{check_module}
use lsfg_nx.Backend.Load.{Limits, Request, Plan, accepted, >>=-accepted, empty_plan}
use lsfg_nx.Backend.Load.Accept.{
  accept, check_request, plan_passes, plan_images, check_budget, plan_dispatches,
}
use lsfg_nx.Backend.Load.Images.{image_plan, plan_images-Planned}
use lsfg_nx.Backend.Load.Dispatches.{IsSmall, AllPlanned, plan_dispatches-Planned}

-- A plan for a cache at a requested extent.
pub record Promises (cache : Loaded) (request : Request) (plan : Plan) : Type 0 where
  pub images :
      plan.images
      ≡ map
          (image_plan request.output (flow_extent cache.graph.config request.output))
          cache.graph.images
  pub owned_bytes : plan.owned_image_bytes ≡ owned_memory_bytes cache.graph request.output
  pub in_budget : plan.owned_image_bytes ≤ request.memory_budget_bytes
  pub dispatches : AllPlanned cache plan.images cache.graph.dispatches plan.dispatches

-- Of two plans: the same images and dispatches, and the same memory.
abbrev SameWork : Plan → Plan → Type 0
SameWork plan next =
    (next.images ≡ plan.images)
    × (next.dispatches ≡ plan.dispatches)
    × (next.owned_image_bytes ≡ plan.owned_image_bytes)

plan_passes-SameWork :
    (limits : Limits) (passes : List LoadedPass) (index : ℕ) (plan next : Plan)
    → plan_passes limits passes index plan ≡ accepted next
    → SameWork plan next
unfolding plan_passes
plan_passes-SameWork limits [] index plan next h =
    (ground (arith, h), ground (arith, h), ground (arith, h))
plan_passes-SameWork limits (pass ∷ passes) index plan next h =
    let (t, a, b) = (>>=-accepted (check_module pass index limits) (λ _. _)) h in
    plan_passes-SameWork limits passes (suc index) _ next b

-- Where no side of an image reaches 2 ^ 31, an accepted request leaves a plan of every image of the
-- graph, in their order, whose owned memory is what `owned_memory_bytes` says and within the budget,
-- and of every dispatch, in their order, with the pass of its module and just as many groups as cover
-- its image.
pub accept-Promises :
    (cache : Loaded) (request : Request) (plan : Plan)
    → All
        (λ d. IsSmall (image_plan request.output (flow_extent cache.graph.config request.output) d))
        cache.graph.images
    → accept cache request ≡ accepted plan
    → Promises cache request plan
unfolding accept owned_memory_bytes check_budget
accept-Promises cache request plan small h =
    let flow = flow_extent cache.graph.config request.output in
    let (t, _, a) = (>>=-accepted (check_request cache request) (λ _. _)) h in
    let (passes, b, c) =
      (>>=-accepted (plan_passes request.limits cache.passes 0 empty_plan) _) a in
    let start : Plan = record passes { output = request.output; flow = flow } in
    let (images, d, e) = (>>=-accepted (plan_images request flow cache.graph.images 0 start) _) c in
    let (u, f, g) = (>>=-accepted (check_budget request images) (λ _. _)) e in
    let (dispatches, i, j) =
      (>>=-accepted (plan_dispatches cache cache.graph.dispatches 0 images) _) g in
    let same = plan_passes-SameWork request.limits cache.passes 0 empty_plan passes b in
    let pictured = plan_images-Planned request flow cache.graph.images 0 start images d in
    let entries = map (image_plan request.output flow) cache.graph.images in
    let pictures : images.images ≡ entries = pictured.planned ∙ ap (λ xs. xs ++ entries) same.0 in
    let work =
      plan_dispatches-Planned cache cache.graph.dispatches 0 images dispatches
        (subst (All IsSmall) (sym pictures)
          (All-map IsSmall (image_plan request.output flow) cache.graph.images small))
        i in
    let last : plan.images ≡ dispatches.images = ground (arith, j) in
    let owned : plan.owned_image_bytes ≡ dispatches.owned_image_bytes = ground (arith, j) in
    let ordered : plan.dispatches ≡ work.planned =
      (let e : plan.dispatches ≡ dispatches.dispatches = ground (arith, j) in e)
      ∙ work.added
      ∙ ap (λ ds. ds ++ work.planned) (pictured.same_dispatches ∙ same.1) in
    let budget : images.owned_image_bytes ≤ request.memory_budget_bytes = ground (arith, f) in
    record {
      images = last ∙ work.images ∙ pictures;
      owned_bytes =
          owned
          ∙ work.owned
          ∙ pictured.owned_bytes
          ∙ ap (sum_bytes cache.graph.images request.output flow) same.2;
      in_budget = omega (arith, owned, work.owned, budget);
      dispatches =
          subst (λ is. AllPlanned cache is cache.graph.dispatches plan.dispatches)
            (sym (last ∙ work.images))
            (subst (AllPlanned cache images.images cache.graph.dispatches) (sym ordered)
              work.are_planned);
    }
