-- ===== src/Backend/Layout.antt =====
-- runtime/backend layout.hpp and layout.cpp: the descriptors of a graph's images.
pub mod Issued
use lsfg_nx.Base.{
  ℕ, zero, suc, ◌+◌, ◌-◌, ◌%◌, ◌^◌, Bool, true, false, ◌||◌, List, [], ◌∷◌, ltb, if◌then◌else◌,
  length, replicate, set, get_elem?, none, some,
}
use lsfg_nx.Error.{ErrorCode}
use lsfg_nx.Outcome.{Outcome, done, failed, faulted, ◌>>=◌}
use lsfg_nx.Graph.{Graph, VariantEntry}

abbrev pub no_descriptor : ℕ
no_descriptor = 0xFFFF_FFFF

pub record ImageDescriptors : Type 0 where
  pub sampled : ℕ
  pub storage : ℕ

pub record DescriptorLayout : Type 0 where
  pub images : List ImageDescriptors
  pub image_descriptors : ℕ
  pub sampled_images : ℕ
  pub storage_images : ℕ

pub record Usage : Type 0 where
  pub sampled : Bool
  pub storage : Bool

abbrev pub unused : Usage
unused = record { sampled = false; storage = false }

-- One binding of a variant: the mark that it sets.
unfoldable pub mark_binding : Graph → VariantEntry → ℕ → List Usage → Outcome (List Usage)
mark_binding g variant index usage = elim (get_elem? g.bindings (variant.binding_first + index)) [
  | none ↦ faulted
  | some image ↦ elim (get_elem? usage image) [
    | none ↦ failed ErrorCode.cache_integrity_failure
    | some u ↦
        if ltb index variant.texture_count
        then done (set usage image (record u { sampled = true }))
        else done (set usage image (record u { storage = true }))
  ]
]

unfoldable pub mark_bindings : Graph → VariantEntry → ℕ → ℕ → List Usage → Outcome (List Usage)
mark_bindings g variant index zero usage = done usage
mark_bindings g variant index (suc count) usage =
    mark_binding g variant index usage >>= mark_bindings g variant (suc index) count

unfoldable pub mark_variant : Graph → VariantEntry → List Usage → Outcome (List Usage)
mark_variant g variant usage =
    let first = variant.binding_first in
    let count = variant.texture_count + variant.storage_count in
    if ltb (length g.bindings) first || ltb (length g.bindings - first) count
    then failed ErrorCode.cache_integrity_failure
    else mark_bindings g variant 0 count usage

unfoldable pub mark_variants : Graph → List VariantEntry → List Usage → Outcome (List Usage)
mark_variants g [] usage = done usage
mark_variants g (variant ∷ variants) usage =
    mark_variant g variant usage >>= mark_variants g variants

-- The second loop of `describe`: the usages left, and the layout so far.
abbrev pub assign_sampled :
    Usage → ImageDescriptors × DescriptorLayout → ImageDescriptors × DescriptorLayout
assign_sampled u (image, out) =
    if u.sampled
    then (
      record image { sampled = out.image_descriptors },
      record out {
        image_descriptors = (out.image_descriptors + 1) % 2 ^ 32;
        sampled_images = (out.sampled_images + 1) % 2 ^ 32;
      },
    )
    else (image, out)

abbrev pub assign_storage :
    Usage → ImageDescriptors × DescriptorLayout → ImageDescriptors × DescriptorLayout
assign_storage u (image, out) =
    if u.storage
    then (
      record image { storage = out.image_descriptors },
      record out {
        image_descriptors = (out.image_descriptors + 1) % 2 ^ 32;
        storage_images = (out.storage_images + 1) % 2 ^ 32;
      },
    )
    else (image, out)

abbrev pub no_descriptors : ImageDescriptors
no_descriptors = record { sampled = no_descriptor; storage = no_descriptor }

unfoldable pub assign : List Usage → ℕ → DescriptorLayout → DescriptorLayout
assign [] index out = out
assign (u ∷ usage) index out =
    let (image, out') = assign_storage u (assign_sampled u (no_descriptors, out)) in
    assign usage (suc index) (record out' { images = set out'.images index image })

unfoldable pub describe : Graph → Outcome DescriptorLayout
describe g = mark_variants g g.variants (replicate (length g.images) unused) >>= λ usage. done (
    assign usage 0 (record {
      images = replicate (length g.images) no_descriptors;
      image_descriptors = 0;
      sampled_images = 0;
      storage_images = 0;
    }))
