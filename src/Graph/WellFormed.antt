-- ===== src/Graph/WellFormed.antt =====
-- image_graph.cpp: what `validate` accepts of a dispatch and of a graph. A graph is `Addressable` if
-- its counts and offsets do not pass the ends of the 32-bit sums in which the source computes.
use lsfg_nx.Base.{
  ℕ, ◌+◌, ◌^◌, ◌≤◌, ◌<◌, ◌≡◌, ◌↔◌, arith, List, [], ◌∷◌, length, some, get_elem?, All,
  All-get_elem?,
}
use lsfg_nx.Check.{Check, go, read, each, for_range}
use lsfg_nx.Check.Laws.{read-go, each-go, for_range-go}
use lsfg_nx.Graph.{ImageDesc, VariantEntry, DispatchEntry, Graph, add32}
use lsfg_nx.Graph.Validate.{
  image_count, check_image, binding_count, check_variant, check_dispatch, validate,
}
use lsfg_nx.Graph.Accepts.{ImageOk, VariantOk, check_image_iff, check_variant_iff}

-- A dispatch of a known slot and stage, over an image of the graph, with at least one variant, all
-- of them in the list and in order.
pub record DispatchOk (g : Graph) (dispatch : DispatchEntry) : Type 0 where
  pub slot_in : dispatch.slot < 26
  pub image_in : dispatch.grid_image < length g.images
  pub some_variant : 0 < dispatch.variant_count
  pub variants_in : dispatch.variant_first + dispatch.variant_count ≤ length g.variants
  pub stage_in : dispatch.stage ≤ g.config.generated_frames
  pub variants_ok :
      (offset : ℕ)
      → offset < dispatch.variant_count
      → (variant : VariantEntry) × (get_elem? g.variants (dispatch.variant_first + offset)
          ≡ some variant)
        × VariantOk g dispatch variant

-- The counts and offsets of the graph stay within 32 bits.
pub record Addressable (g : Graph) : Type 0 where
  pub images_fit : length g.images < 2 ^ 32
  pub variants_fit : All (λ d. d.variant_first + d.variant_count < 2 ^ 32) g.dispatches
  pub bindings_fit : All (λ v. v.binding_first + binding_count v < 2 ^ 32) g.variants

check_dispatch_iff :
    (g : Graph) (dispatch : DispatchEntry)
    → Addressable g
    → dispatch.variant_first + dispatch.variant_count < 2 ^ 32
    → (check_dispatch g dispatch ≡ go) ↔ DispatchOk g dispatch
unfolding check_dispatch
check_dispatch_iff g dispatch a k = (accepted, λ v. passes v)
  where
    fits :
        (offset : ℕ) (v : VariantEntry)
        → get_elem? g.variants (dispatch.variant_first + offset) ≡ some v
        → v.binding_first + binding_count v < 2 ^ 32
    fits offset v p =
        All-get_elem? (λ v. v.binding_first + binding_count v < 2 ^ 32) g.variants
          (dispatch.variant_first + offset) v a.bindings_fit p

    body : ℕ → Check
    body offset = read g.variants (add32 dispatch.variant_first offset) (check_variant g dispatch)

    loop : Check
    loop = for_range 0 dispatch.variant_count body

    Good : ℕ → Type 0
    Good offset =
        (variant : VariantEntry) × (get_elem? g.variants (dispatch.variant_first + offset)
          ≡ some variant)
        × VariantOk g dispatch variant

    body_iff : (offset : ℕ) → offset < dispatch.variant_count → (body offset ≡ go) ↔ Good offset
    body_iff offset lt =
        let e : add32 dispatch.variant_first offset ≡ dispatch.variant_first + offset =
          omega arith in
        let one = read-go g.variants (dispatch.variant_first + offset) (check_variant g dispatch) in
        rw e (
          λ h.
              let (v, p, q) = one.0 h in
              (v, p, (check_variant_iff g dispatch v a.images_fit (fits offset v p)).0 q),
          λ s. one.1 (
            s.0,
            s.1,
            (check_variant_iff g dispatch s.0 a.images_fit (fits offset s.0 s.1)).1 s.2,
          ),
        )

    loop_iff : (loop ≡ go) ↔ ((offset : ℕ) → offset < dispatch.variant_count → Good offset)
    loop_iff =
        let each = for_range-go 0 dispatch.variant_count body in
        (
          λ e offset lt. (body_iff offset lt).0 (each.0 e offset (omega arith) (omega arith)),
          λ f. each.1 λ offset p q. (body_iff offset (omega arith)).1 (f offset (omega arith)),
        )

    accepted : check_dispatch g dispatch ≡ go → DispatchOk g dispatch
    accepted e =
        let ran : loop ≡ go = ground arith in
        let size = a.images_fit in
        record {
          slot_in = ground arith;
          image_in = ground arith;
          some_variant = ground arith;
          variants_in = ground arith;
          stage_in = ground arith;
          variants_ok = loop_iff.0 ran;
        }

    passes : DispatchOk g dispatch → check_dispatch g dispatch ≡ go
    passes v =
        let ran : loop ≡ go = loop_iff.1 v.variants_ok in
        ground (
          arith, ran, a.images_fit, v.slot_in, v.image_in, v.some_variant, v.variants_in,
          v.stage_in,
        )

-- A graph that the backend can run: frames, images and dispatches in order, and every image that a
-- dispatch binds in the list and used as its role allows.
pub record WellFormed (g : Graph) : Type 0 where
  pub frames : (1 ≤ g.config.generated_frames) × (g.config.generated_frames ≤ 3)
  pub images_enough : 2 + g.config.generated_frames < length g.images
  pub dispatches_some : 0 < length g.dispatches
  pub images_ok :
      (index : ℕ)
      → index < length g.images
      → (image : ImageDesc) × (get_elem? g.images index ≡ some image)
        × ImageOk g.config.generated_frames index image
  pub dispatches_ok : All (DispatchOk g) g.dispatches

dispatches_iff :
    (g : Graph) (ds : List DispatchEntry)
    → Addressable g
    → All (λ d. d.variant_first + d.variant_count < 2 ^ 32) ds
    → All (λ d. check_dispatch g d ≡ go) ds ↔ All (DispatchOk g) ds
dispatches_iff g [] a f = (λ h. tt, λ h. tt)
dispatches_iff g (d ∷ ds) a f =
    let one = check_dispatch_iff g d a f.0 in
    let rest = dispatches_iff g ds a f.1 in
    (λ h. (one.0 h.0, rest.0 h.1), λ h. (one.1 h.0, rest.1 h.1))

pub validate_iff : (g : Graph) → Addressable g → (validate g ≡ go) ↔ WellFormed g
unfolding validate
validate_iff g a = (accepted, λ v. passes v)
  where
    body : ℕ → Check
    body index = read g.images index (check_image g.config.generated_frames index)

    images : Check
    images = for_range 0 (image_count g) body

    dispatches : Check
    dispatches = each g.dispatches (check_dispatch g)

    count : image_count g ≡ length g.images
    count = let size = a.images_fit in omega arith

    Good : ℕ → Type 0
    Good index =
        (image : ImageDesc) × (get_elem? g.images index ≡ some image)
        × ImageOk g.config.generated_frames index image

    images_iff : (images ≡ go) ↔ ((index : ℕ) → index < length g.images → Good index)
    images_iff =
        let each = for_range-go 0 (image_count g) body in
        (
          λ e index lt.
              let (image, p, q) =
                (read-go g.images index (check_image g.config.generated_frames index)).0
                  (each.0 e index (omega arith) (omega (arith, count))) in
              (image, p, (check_image_iff g.config.generated_frames index image).0 q),
          λ f. each.1 λ index p q.
              let found = f index (omega (arith, count)) in
              (read-go g.images index (check_image g.config.generated_frames index)).1 (
                found.0,
                found.1,
                (check_image_iff g.config.generated_frames index found.0).1 found.2,
              ),
        )

    accepted : validate g ≡ go → WellFormed g
    accepted e =
        let ran : images ≡ go = ground arith in
        let done : dispatches ≡ go = ground arith in
        record {
          frames = ground arith;
          images_enough = ground (arith, count);
          dispatches_some = ground arith;
          images_ok = images_iff.0 ran;
          dispatches_ok =
              (dispatches_iff g g.dispatches a a.variants_fit).0
                ((each-go g.dispatches (check_dispatch g)).0 done);
        }

    passes : WellFormed g → validate g ≡ go
    passes v =
        let ran : images ≡ go = images_iff.1 v.images_ok in
        let done : dispatches ≡ go =
          (each-go g.dispatches (check_dispatch g)).1
            ((dispatches_iff g g.dispatches a a.variants_fit).1 v.dispatches_ok) in
        ground (arith, ran, done, count, v.frames, v.images_enough, v.dispatches_some)
