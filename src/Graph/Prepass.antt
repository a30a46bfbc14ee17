-- ===== src/Graph/Prepass.antt =====
-- image_graph.cpp: the first half of `build`, the passes that every generated frame shares.
use lsfg_nx.Base.{ℕ, suc, ◌+◌, ◌-◌, ◌*◌, ◌%◌, List, [], ◌∷◌, ◌++◌, ◌==◌, if◌then◌else◌, length, set}
use lsfg_nx.Graph.{
  Config, ImageDesc, base_output, base_flow, base_fixed, format_rgba8, format_r8, format_rgba16f,
  role_internal, role_history, role_generated, role_constant,
}
use lsfg_nx.Graph.Builder.{
  Build, ◌>>=◌, ◌>>◌, pure, at, loop, sub32, border_black, border_white, image_desc, halved,
  shifted, as_format, VariantDraft, draft_of, add, add_many, dispatch,
}

abbrev pub pyramid_levels : ℕ
pyramid_levels = 7

abbrev pub base_temporal_depth : ℕ
base_temporal_depth = 3

abbrev pub temporal_depth : ℕ
temporal_depth = 2

abbrev pub prepass_stage : ℕ
prepass_stage = 0

abbrev pub width_of : Config → ℕ
width_of config = if config.performance then 1 else 2

abbrev pub frame_format_of : Config → ℕ
frame_format_of config = if config.hdr then format_rgba16f else format_rgba8

pub record AlphaLevel : Type 0 where
  pub quarter : ImageDesc
  pub history : List (List ℕ)

abbrev pub no_level : AlphaLevel
no_level = record { quarter = image_desc 0 0 0; history = [] }

-- The images of the frames, and the black one: what `build` adds first.
pub record FrameImages : Type 0 where
  pub history : List ℕ
  pub generated : List ℕ
  pub black : ℕ

unfoldable pub add_frames : Config → Build FrameImages
unfolding add loop
add_frames config =
    let frame_format = frame_format_of config in
    do
      first ← add (image_desc base_output frame_format role_history)
      second ← add (image_desc base_output frame_format role_history)
      generated ←
          loop 0 config.generated_frames
            (λ frame generated.
              add (image_desc base_output frame_format role_generated) >>= λ index.
              pure (generated ++ (index ∷ [])))
            []
      black ← add (record (image_desc base_fixed format_rgba8 role_constant) {
        fixed_width = 4;
        fixed_height = 4;
      })
      pure (record { history = first ∷ second ∷ []; generated = generated; black = black })

-- `mip_desc`: the levels left, from the one given on.
abbrev pub mip_descs : ℕ → ImageDesc → List ImageDesc
mip_descs ℕ.zero desc = []
mip_descs (suc levels) desc = desc ∷ mip_descs levels (shifted desc)

abbrev pub mip_desc : List ImageDesc
mip_desc = mip_descs pyramid_levels (image_desc base_flow format_r8 role_internal)

-- The images of the pyramid, and the pass that writes them.
unfoldable pub add_mipmaps : List ℕ → Build (List ℕ)
unfolding add loop dispatch
add_mipmaps history = do
  mip ←
      loop 0 pyramid_levels
        (λ level mip.
          at mip_desc level >>= λ desc. add desc >>= λ index. pure (mip ++ (index ∷ [])))
        []
  variants ←
      loop 0 2
        (λ index variants. at history index >>= λ frame. pure (
          variants
          ++ (record (draft_of (frame ∷ []) mip (border_black ∷ [])) { uniform_buffer = 0 } ∷ [])))
        []
  dispatch "mipmaps" 6 prepass_stage variants
  pure mip

-- The images that a level retains, one set for each frame of its depth, and the drafts that write
-- them.
unfoldable pub add_retained : ImageDesc → ℕ → List ℕ → ℕ → Build (List VariantDraft × List (List ℕ))
unfolding loop
add_retained quarter width refined depth =
    loop 0 depth
      (λ slot (retain, history). add_many quarter (2 * width) >>= λ images.
        pure
          (retain ++ (draft_of refined images (border_black ∷ []) ∷ []), history ++ (images ∷ [])))
      ([], [])

-- The body of the loop over the steps of the alpha passes.
unfoldable pub add_alpha : ℕ → List ℕ → ℕ → List AlphaLevel → Build (List AlphaLevel)
unfolding add_retained dispatch add_many
add_alpha width mip step alpha =
    let level = pyramid_levels - 1 - step in
    do
      desc ← at mip_desc level
      let half = as_format (halved desc) format_rgba8
      let quarter = halved half
      first ← add_many half width
      second ← add_many half width
      refined ← add_many quarter (2 * width)
      image ← at mip level
      dispatch "alpha.0" 3 prepass_stage (draft_of (image ∷ []) first (border_black ∷ []) ∷ [])
      dispatch "alpha.1" 3 prepass_stage (draft_of first second (border_black ∷ []) ∷ [])
      dispatch "alpha.2" 3 prepass_stage (draft_of second refined (border_black ∷ []) ∷ [])
      retained ←
          add_retained quarter width refined
            (if level == 0 then base_temporal_depth else temporal_depth)
      dispatch "alpha.3" 3 prepass_stage retained.0
      pure (set alpha level (record { quarter = quarter; history = retained.1 }))

-- The textures of a draft of the pass beta.0: the frames two and one before, and the frame itself.
unfoldable pub recent : List (List ℕ) → ℕ → Build (List ℕ)
recent history frame =
    let depth = length history in
    do
      older ← at history (sub32 (frame + depth) 2 % depth)
      old ← at history (sub32 (frame + depth) 1 % depth)
      this ← at history frame
      pure ((older ++ old) ++ this)

-- The images of the pyramid of the beta passes.
unfoldable pub add_beta_pyramid : ImageDesc → Build (List ℕ)
unfolding add loop
add_beta_pyramid base_quarter =
    loop 0 (pyramid_levels - 1)
      (λ level (beta_pyramid, desc).
        add desc >>= λ index. pure (beta_pyramid ++ (index ∷ []), shifted desc))
      ([], as_format base_quarter format_r8)
    >>= λ (beta_pyramid, desc). pure beta_pyramid

-- The beta passes.
unfoldable pub add_beta : AlphaLevel → Build (List ℕ)
unfolding recent add_beta_pyramid dispatch loop add_many
add_beta base =
    let base_quarter = base.quarter in
    let base_history = base.history in
    do
      beta_first ← add_many base_quarter 2
      variants ←
          loop 0 (length base_history)
            (λ frame variants. recent base_history frame >>= λ textures.
              pure (variants ++ (draft_of textures beta_first (border_white ∷ []) ∷ [])))
            []
      dispatch "beta.0" 3 prepass_stage variants
      scratch0 ← add_many base_quarter 2
      scratch1 ← add_many base_quarter 2
      pyramid ← add_beta_pyramid base_quarter
      dispatch "beta.1" 3 prepass_stage (draft_of beta_first scratch0 (border_black ∷ []) ∷ [])
      dispatch "beta.2" 3 prepass_stage (draft_of scratch0 scratch1 (border_black ∷ []) ∷ [])
      dispatch "beta.3" 3 prepass_stage (draft_of scratch1 scratch0 (border_black ∷ []) ∷ [])
      dispatch "beta.4" 5 prepass_stage
          (record (draft_of scratch0 pyramid (border_black ∷ [])) { uniform_buffer = 0 } ∷ [])
      pure pyramid
