-- ===== src/Graph/Accepts.antt =====
-- image_graph.cpp: what `validate` accepts of an image, of a binding and of a variant.
use lsfg_nx.Base.{
  ℕ, ◌+◌, ◌^◌, ◌≤◌, ◌<◌, ◌≡◌, ◌≢◌, ◌↔◌, ◌⊎◌, arith, length, some, get_elem?, get_elem?-bound,
}
use lsfg_nx.Check.{Check, go, for_range}
use lsfg_nx.Check.Laws.{for_range-go}
use lsfg_nx.Graph.{ImageDesc, VariantEntry, DispatchEntry, Graph, add32}
use lsfg_nx.Graph.Validate.{check_image, check_binding, binding_count, check_variant}

-- The first two images are the real frames, the next ones the generated frames, and no others are.
pub record ImageOk (generated_frames index : ℕ) (image : ImageDesc) : Type 0 where
  pub history : (image.role ≡ 1) ↔ (index < 2)
  pub generated : (image.role ≡ 2) ↔ ((2 ≤ index) × (index < 2 + generated_frames))
  pub base : image.base ≤ 2
  pub format : image.format ≤ 2

pub check_image_iff :
    (generated_frames index : ℕ) (image : ImageDesc)
    → (check_image generated_frames index image ≡ go) ↔ ImageOk generated_frames index image
unfolding check_image
check_image_iff generated_frames index image = (λ h. ground arith, λ h. ground arith)

-- The binding names an image; a real frame is only read, a generated frame only written, and that
-- by the slot that generates.
abbrev pub RoleOk : DispatchEntry → VariantEntry → ℕ → ImageDesc → Type 0
RoleOk dispatch variant index desc =
    ((index < variant.texture_count) × (desc.role ≢ 2))
    ⊎ ((variant.texture_count ≤ index) × (desc.role ≢ 1) × ((desc.role ≢ 2) ⊎ (dispatch.slot ≡ 25)))

abbrev pub BindingOk : Graph → DispatchEntry → VariantEntry → ℕ → Type 0
BindingOk g dispatch variant index =
    (image : ℕ) × (desc : ImageDesc) × (get_elem? g.bindings (variant.binding_first + index)
      ≡ some image)
    × (get_elem? g.images image ≡ some desc)
    × RoleOk dispatch variant index desc

check_binding_iff :
    (g : Graph) (dispatch : DispatchEntry) (variant : VariantEntry) (index : ℕ)
    → length g.images < 2 ^ 32
    → variant.binding_first + index < 2 ^ 32
    → (check_binding g dispatch variant index ≡ go) ↔ BindingOk g dispatch variant index
unfolding check_binding
check_binding_iff g dispatch variant index h k =
    let e : add32 variant.binding_first index ≡ variant.binding_first + index = omega arith in
    rw e (λ b. ground arith, λ b. ground (arith, get_elem?-bound g.images b.0 b.1))

-- A variant whose bindings are in the list, with at most two samplers and a uniform buffer, if it
-- has one, of the graph.
pub record VariantOk (g : Graph) (dispatch : DispatchEntry) (variant : VariantEntry) : Type 0 where
  pub bindings_in : variant.binding_first + binding_count variant ≤ length g.bindings
  pub samplers_in : variant.sampler_count ≤ 2
  pub uniform_in :
      (variant.uniform_buffer ≡ 255) ⊎ (variant.uniform_buffer < g.uniform_buffer_count)
  pub bindings_ok : (index : ℕ) → index < binding_count variant → BindingOk g dispatch variant index

pub check_variant_iff :
    (g : Graph) (dispatch : DispatchEntry) (variant : VariantEntry)
    → length g.images < 2 ^ 32
    → variant.binding_first + binding_count variant < 2 ^ 32
    → (check_variant g dispatch variant ≡ go) ↔ VariantOk g dispatch variant
unfolding check_variant
check_variant_iff g dispatch variant h k = (accepted, λ v. passes v)
  where
    loop : Check
    loop = for_range 0 (binding_count variant) (check_binding g dispatch variant)

    loop_iff :
        (loop ≡ go)
        ↔ ((index : ℕ) → index < binding_count variant → BindingOk g dispatch variant index)
    loop_iff =
        let each = for_range-go 0 (binding_count variant) (check_binding g dispatch variant) in
        (
          λ e index lt.
              (check_binding_iff g dispatch variant index h (omega arith)).0
                (each.0 e index (omega arith) (omega arith)),
          λ f. each.1 λ index a b.
              (check_binding_iff g dispatch variant index h (omega arith)).1
                (f index (omega arith)),
        )

    accepted : check_variant g dispatch variant ≡ go → VariantOk g dispatch variant
    accepted e =
        let ran : loop ≡ go = ground arith in
        record {
          bindings_in = ground arith;
          samplers_in = ground arith;
          uniform_in = ground arith;
          bindings_ok = loop_iff.0 ran;
        }

    passes : VariantOk g dispatch variant → check_variant g dispatch variant ≡ go
    passes v =
        let ran : loop ≡ go = loop_iff.1 v.bindings_ok in
        ground (arith, ran, v.bindings_in, v.samplers_in, v.uniform_in)
