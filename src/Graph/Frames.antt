-- ===== src/Graph/Frames.antt =====
-- image_graph.cpp: the second half of `build`, the passes of one generated frame.
use lsfg_nx.Base.{
  ℕ, ◌+◌, ◌-◌, ◌*◌, ◌%◌, ◌^◌, List, [], ◌∷◌, ◌++◌, ltb, ◌==◌, if◌then◌else◌, length, replicate, set,
  take,
}
use lsfg_nx.Graph.{format_rgba16f}
use lsfg_nx.Graph.Builder.{
  Build, ◌>>=◌, ◌>>◌, pure, at, loop, sub32, border_black, border_white, edge, as_format,
  VariantDraft, draft_of, add, add_many, dispatch,
}
use lsfg_nx.Graph.Prepass.{AlphaLevel, FrameImages, pyramid_levels}

abbrev pub refined_levels : ℕ
refined_levels = 3

-- What the passes of a generated frame share: the images of the prepass, the stage, and the uniform
-- buffer.
pub record Stage : Type 0 where
  pub images : FrameImages
  pub alpha : List AlphaLevel
  pub beta_pyramid : List ℕ
  pub width : ℕ
  pub stage : ℕ
  pub uniform_buffer : ℕ

-- The images that the steps have written so far.
pub record Results : Type 0 where
  pub gamma : List ℕ
  pub delta0 : List ℕ
  pub delta1 : List ℕ

abbrev pub no_results : Results
no_results = record {
  gamma = replicate pyramid_levels 0;
  delta0 = replicate refined_levels 0;
  delta1 = replicate refined_levels 0;
}

-- A draft with the uniform buffer of the stage.
abbrev pub staged : Stage → List ℕ → List ℕ → List ℕ → VariantDraft
staged s textures storages samplers = record (draft_of textures storages samplers) {
  uniform_buffer = s.uniform_buffer;
}

-- The drafts of a pass that reads the retained frames before and at each phase, and more images.
unfoldable pub phases : Stage → List (List ℕ) → List ℕ → List ℕ → Build (List VariantDraft)
unfolding loop
phases s retained storages more =
    let depth = length retained in
    loop 0 depth
      (λ phase variants. do
        before ← at retained (sub32 (phase + depth) 1 % depth)
        this ← at retained phase
        pure (
            variants
            ++ (staged s ((before ++ this) ++ more) storages (border_white ∷ edge ∷ []) ∷ [])))
      []

-- The gamma passes of a step, which write the image that they return.
unfoldable pub add_gamma : Stage → AlphaLevel → ℕ → ℕ → Build ℕ
unfolding phases add dispatch add_many
add_gamma s alpha coarser guide =
    let quarter = alpha.quarter in
    do
      estimate ← add_many quarter 3
      variants ← phases s alpha.history estimate (coarser ∷ [])
      dispatch "gamma.0" 3 s.stage variants
      scratch0 ← add_many quarter (2 * s.width)
      scratch1 ← add_many quarter (2 * s.width)
      result ← add (as_format quarter format_rgba16f)
      dispatch "gamma.1" 3 s.stage (draft_of estimate scratch0 (border_black ∷ []) ∷ [])
      dispatch "gamma.2" 3 s.stage (draft_of scratch0 scratch1 (border_black ∷ []) ∷ [])
      dispatch "gamma.3" 3 s.stage (draft_of scratch1 scratch0 (border_black ∷ []) ∷ [])
      dispatch "gamma.4" 3 s.stage (
          staged s (scratch0 ++ (coarser ∷ guide ∷ [])) (result ∷ []) (border_black ∷ edge ∷ [])
          ∷ [])
      pure result

-- The delta passes of a step, which write the two images that they return.
unfoldable pub add_delta : Stage → AlphaLevel → ℕ → ℕ → ℕ → ℕ → Build (ℕ × ℕ)
unfolding phases add dispatch add_many
add_delta s alpha gamma guide previous0 previous1 =
    let quarter = alpha.quarter in
    do
      occlusion ← add_many quarter 3
      mask ← add_many quarter s.width
      variants ← phases s alpha.history occlusion (previous0 ∷ [])
      mask_variants ← phases s alpha.history mask (gamma ∷ previous0 ∷ [])
      dispatch "delta.0" 3 s.stage variants
      dispatch "delta.5" 3 s.stage mask_variants
      scratch0 ← add_many quarter (2 * s.width)
      scratch1 ← add_many quarter (2 * s.width)
      image0 ← add (as_format quarter format_rgba16f)
      image1 ← add (as_format quarter format_rgba16f)
      dispatch "delta.1" 3 s.stage (draft_of occlusion scratch0 (border_black ∷ []) ∷ [])
      dispatch "delta.2" 3 s.stage (draft_of scratch0 scratch1 (border_black ∷ []) ∷ [])
      dispatch "delta.3" 3 s.stage (draft_of scratch1 scratch0 (border_black ∷ []) ∷ [])
      dispatch "delta.4" 3 s.stage (
          staged s (scratch0 ++ (previous0 ∷ guide ∷ [])) (image0 ∷ []) (border_black ∷ edge ∷ [])
          ∷ [])
      let narrow0 = take s.width scratch0
      let narrow1 = take s.width scratch1
      dispatch "delta.6" 3 s.stage (draft_of mask narrow0 (border_black ∷ []) ∷ [])
      dispatch "delta.7" 3 s.stage (draft_of narrow0 narrow1 (border_black ∷ []) ∷ [])
      dispatch "delta.8" 3 s.stage (draft_of narrow1 narrow0 (border_black ∷ []) ∷ [])
      dispatch "delta.9" 3 s.stage
          (staged s (narrow0 ++ (previous1 ∷ [])) (image1 ∷ []) (border_black ∷ edge ∷ []) ∷ [])
      pure (image0, image1)

-- `xs[i - 1]`, or the black image for the first.
abbrev pub previous : Stage → List ℕ → ℕ → Build ℕ
previous s xs i = if i == 0 then pure s.images.black else at xs (i - 1)

-- The part of a step that only the refined levels have.
unfoldable pub refine : Stage → AlphaLevel → ℕ → ℕ → Results → Build Results
unfolding add_delta
refine s alpha guide step results =
    let refined_step = step - (pyramid_levels - refined_levels) in
    do
      previous0 ← previous s results.delta0 refined_step
      previous1 ← previous s results.delta1 refined_step
      before ← at results.gamma (step - 1)
      images ← add_delta s alpha before guide previous0 previous1
      pure (record results {
        delta0 = set results.delta0 refined_step images.0;
        delta1 = set results.delta1 refined_step images.1;
      })

-- The body of the loop over the steps.
unfoldable pub add_step : Stage → ℕ → Results → Build Results
unfolding add_gamma refine
add_step s step results =
    let level = pyramid_levels - 1 - step in
    do
      alpha ← at s.alpha level
      coarser ← previous s results.gamma step
      guide ← at s.beta_pyramid (if step == 0 then pyramid_levels - 2 else level)
      gamma ← add_gamma s alpha coarser guide
      let written = record results { gamma = set results.gamma step gamma }
      (if ltb (step + refined_levels) pyramid_levels
          then pure written
          else refine s alpha guide step written)

-- The pass that generates the frame, in the two phases of the retained real frames.
unfoldable pub add_generate : Stage → Results → ℕ → Build (Unit {0})
unfolding dispatch loop
add_generate s results destination = do
  gamma ← at results.gamma (pyramid_levels - 1)
  delta0 ← at results.delta0 (refined_levels - 1)
  delta1 ← at results.delta1 (refined_levels - 1)
  variants ←
      loop 0 2
        (λ phase variants. do
          before ← at s.images.history (1 - phase)
          this ← at s.images.history phase
          pure (
              variants
              ++ (staged s (before ∷ this ∷ gamma ∷ delta0 ∷ delta1 ∷ []) (destination ∷ [])
                    (border_black ∷ edge ∷ [])
                  ∷ [])))
        []
  dispatch "generate" 4 s.stage variants

-- The body of the loop over the generated frames.
unfoldable pub add_generated : FrameImages → List AlphaLevel → List ℕ → ℕ → ℕ → Build (Unit {0})
unfolding add_step add_generate loop
add_generated images alpha beta_pyramid width frame =
    let s : Stage = record {
      images = images;
      alpha = alpha;
      beta_pyramid = beta_pyramid;
      width = width;
      stage = (1 + frame) % 2 ^ 8;
      uniform_buffer = (1 + frame) % 2 ^ 8;
    } in
    do
      results ← loop 0 pyramid_levels (add_step s) no_results
      destination ← at images.generated frame
      add_generate s results destination
