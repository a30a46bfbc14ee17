-- ===== src/Backend/Load/Images.antt =====
-- cache_load.cpp: the images of an accepted plan.
use lsfg_nx.Base.{
  ℕ, suc, ◌+◌, ◌%◌, ◌^◌, ◌<◌, ◌≡◌, arith, ap, sym, ◌∙◌, ◌||◌, List, [], ◌∷◌, ◌++◌, map,
  append_assoc, append-nil, ◌==◌, if◌then◌else◌, All,
}
use lsfg_nx.Graph.{ImageDesc, role_history, role_generated}
use lsfg_nx.Graph.Extent.{Extent, evaluate, image_bytes, sum_bytes}
use lsfg_nx.Backend.Load.{Request, ImagePlan, Plan, accepted, >>=-accepted, refuse_if}
use lsfg_nx.Backend.Load.Accept.{add_image, plan_images}

-- The plan of an image of the graph.
abbrev pub image_plan : Extent → Extent → ImageDesc → ImagePlan
image_plan output flow desc = record {
  extent = evaluate desc output flow;
  bytes = image_bytes desc (evaluate desc output flow);
  format = desc.format;
  role = desc.role;
}

-- The plan after the images: one entry for each, none of them empty, and the memory of those that
-- the backend owns.
pub record ImagesPlanned (request : Request) (flow : Extent) (images : List ImageDesc)
    (plan next : Plan) : Type 0 where
  pub planned : next.images ≡ plan.images ++ map (image_plan request.output flow) images
  pub owned_bytes :
      next.owned_image_bytes ≡ sum_bytes images request.output flow plan.owned_image_bytes
  pub some_extent :
      All
        (λ d.
          (0 < (evaluate d request.output flow).width)
          × (0 < (evaluate d request.output flow).height))
        images
  pub same_dispatches : next.dispatches ≡ plan.dispatches
  pub same_stages :
      (next.prepass_dispatches ≡ plan.prepass_dispatches)
      × (next.generated_frame_dispatches ≡ plan.generated_frame_dispatches)

pub plan_images-Planned :
    (request : Request) (flow : Extent) (images : List ImageDesc) (index : ℕ) (plan next : Plan)
    → plan_images request flow images index plan ≡ accepted next
    → ImagesPlanned request flow images plan next
unfolding plan_images sum_bytes
plan_images-Planned request flow [] index plan next h =
    let same_images : next.images ≡ plan.images = ground (arith, h) in
    record {
      planned = same_images ∙ sym (append-nil plan.images);
      owned_bytes = ground (arith, h);
      some_extent = tt;
      same_dispatches = ground (arith, h);
      same_stages = ground (arith, h);
    }
plan_images-Planned request flow (desc ∷ images) index plan next h =
    let extent = evaluate desc request.output flow in
    let (t, a, b) =
      (>>=-accepted (refuse_if (extent.width == 0 || extent.height == 0) _)
          (λ _. plan_images request flow images (suc index) (add_image plan desc extent)))
        h in
    let here = add_image plan desc extent in
    let rest = plan_images-Planned request flow images (suc index) here next b in
    let image = image_plan request.output flow desc in
    let added : here.images ≡ plan.images ++ (image ∷ []) = ground arith in
    let owned : here.owned_image_bytes ≡ (
        if desc.role == role_history || desc.role == role_generated
        then plan.owned_image_bytes
        else (plan.owned_image_bytes + image_bytes desc extent) % 2 ^ 64) =
      ground arith in
    let dispatches : here.dispatches ≡ plan.dispatches = ground arith in
    let prepass : here.prepass_dispatches ≡ plan.prepass_dispatches = ground arith in
    let generated : here.generated_frame_dispatches ≡ plan.generated_frame_dispatches =
      ground arith in
    record {
      planned =
          rest.planned
          ∙ ap (λ xs. xs ++ map (image_plan request.output flow) images) added
          ∙ append_assoc plan.images (image ∷ []) (map (image_plan request.output flow) images);
      owned_bytes = rest.owned_bytes ∙ ap (sum_bytes images request.output flow) owned;
      some_extent = (ground (arith, a), rest.some_extent);
      same_dispatches = rest.same_dispatches ∙ dispatches;
      same_stages = (rest.same_stages.0 ∙ prepass, rest.same_stages.1 ∙ generated);
    }
