-- ===== src/Graph/Interfaces.antt =====
-- image_graph.cpp: what `check_against_modules` accepts of a graph.
use lsfg_nx.Base.{
  ℕ, ◌+◌, ◌^◌, ◌<◌, ◌≡◌, ◌≢◌, ◌↔◌, arith, inl, inr, List, some, get_elem?, All, Option-cases,
  All-iff,
}
use lsfg_nx.Check.{go, read, for_range}
use lsfg_nx.Check.Laws.{each-go, for_range-read}
use lsfg_nx.Graph.{Graph, DispatchEntry, VariantEntry, add32}
use lsfg_nx.Graph.Modules.{
  ModuleInterface, block_index_of, uniform_buffers, find_interface, check_declared, check_interface,
  check_against_modules,
}

-- A variant binds just what a module declares.
pub record Matches (entry : ModuleInterface) (variant : VariantEntry) : Type 0 where
  pub textures : variant.texture_count ≡ entry.textures
  pub storages : variant.storage_count ≡ entry.storage_images
  pub samplers : variant.sampler_count ≡ entry.samplers
  pub uniforms : uniform_buffers variant ≡ entry.uniform_buffers

check_declared_iff :
    (entry : ModuleInterface) (variant : VariantEntry)
    → (check_declared entry variant ≡ go) ↔ Matches entry variant
unfolding check_declared
check_declared_iff entry variant = (λ h. ground arith, λ h. ground arith)

abbrev pub AllMatch : Graph → DispatchEntry → ModuleInterface → Type 0
AllMatch g dispatch entry =
    (offset : ℕ)
    → offset < dispatch.variant_count
    → (variant : VariantEntry) × (get_elem? g.variants (dispatch.variant_first + offset)
        ≡ some variant)
      × Matches entry variant

-- A dispatch of a known slot, for whose block a module is given, the first of which declares what
-- all variants of the dispatch bind.
pub record InterfaceOk (g : Graph) (modules : List ModuleInterface) (dispatch : DispatchEntry)
    : Type 0 where
  pub known : block_index_of g dispatch ≢ 0xFFFF_FFFF
  pub entry : ModuleInterface
  pub found : find_interface modules (block_index_of g dispatch) ≡ some entry
  pub matches : AllMatch g dispatch entry

variants_loop :
    (g : Graph) (dispatch : DispatchEntry) (entry : ModuleInterface)
    → dispatch.variant_first + dispatch.variant_count < 2 ^ 32
    → (for_range 0 dispatch.variant_count
          (λ offset. read g.variants (add32 dispatch.variant_first offset) (check_declared entry))
        ≡ go)
      ↔ AllMatch g dispatch entry
variants_loop g dispatch entry fits =
    let loop =
      for_range-read g.variants dispatch.variant_first dispatch.variant_count (check_declared entry)
        fits in
    (
      λ h offset k.
          let (variant, e, s) = loop.0 h offset k in
          (variant, e, (check_declared_iff entry variant).0 s),
      λ ok. loop.1 (λ offset k.
          let (variant, e, s) = ok offset k in
          (variant, e, (check_declared_iff entry variant).1 s)),
    )

check_interface_iff :
    (g : Graph) (modules : List ModuleInterface) (dispatch : DispatchEntry)
    → dispatch.variant_first + dispatch.variant_count < 2 ^ 32
    → (check_interface g modules dispatch ≡ go) ↔ InterfaceOk g modules dispatch
unfolding check_interface
check_interface_iff g modules dispatch fits = (
  λ h. elim (Option-cases (find_interface modules (block_index_of g dispatch))) [
    | inl none_found ↦ absurd (ground (arith, h, none_found))
    | inr found ↦
        let (entry, e) = found in
        record {
          known = ground (arith, h);
          entry = entry;
          found = e;
          matches = (variants_loop g dispatch entry fits).0 (ground (arith, h, e));
        }
  ],
  λ r.
      let s = (variants_loop g dispatch r.entry fits).1 r.matches in
      ground (arith, s, r.known, r.found),
)

-- While the ends of the dispatches' variants fit 32-bit sums, a graph is accepted, and no variant
-- outside the list is read, just where every dispatch has a known slot and a module, and all its
-- variants bind what that module declares.
pub check_against_modules_iff :
    (g : Graph) (modules : List ModuleInterface)
    → All (λ d. d.variant_first + d.variant_count < 2 ^ 32) g.dispatches
    → (check_against_modules g modules ≡ go) ↔ All (InterfaceOk g modules) g.dispatches
unfolding check_against_modules
check_against_modules_iff g modules fits =
    let loop = each-go g.dispatches (check_interface g modules) in
    let all =
      All-iff (λ d. d.variant_first + d.variant_count < 2 ^ 32)
        (λ d. check_interface g modules d ≡ go) (InterfaceOk g modules)
        (λ d. check_interface_iff g modules d) g.dispatches fits in
    (λ h. all.0 (loop.0 h), λ h. loop.1 (all.1 h))
