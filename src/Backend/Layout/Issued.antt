-- ===== src/Backend/Layout/Issued.antt =====
-- layout.cpp: the descriptors that `describe` gives out.
use lsfg_nx.Base.{
  ℕ, zero, suc, ◌+◌, ◌*◌, ◌%◌, ◌^◌, ◌≤◌, ◌<◌, ◌≡◌, arith, refl, ap, sym, subst, ◌∙◌, Bool, true,
  false, List, [], ◌∷◌, ◌++◌, append_assoc, append-nil, length, length-append, length-set,
  length-replicate, get_elem?, Option-cases, inl, inr, replicate, set, ◌==◌, if◌then◌else◌,
}
use lsfg_nx.Graph.{Graph, VariantEntry}
use lsfg_nx.Outcome.{done, >>=-done, done-injective}
use lsfg_nx.Backend.Layout.{
  ImageDescriptors, DescriptorLayout, Usage, no_descriptor, no_descriptors, unused, assign_sampled,
  assign_storage, assign, mark_binding, mark_bindings, mark_variant, mark_variants, describe,
}

-- A descriptor that an image has.
abbrev pub one : ℕ → List ℕ
one n = if n == no_descriptor then [] else n ∷ []

-- The descriptors given out, image by image, the sampled one first.
abbrev pub issued : List ImageDescriptors → List ℕ
issued [] = []
issued (d ∷ ds) = one d.sampled ++ (one d.storage ++ issued ds)

-- The numbers from 0 to before `n`.
abbrev pub below : ℕ → List ℕ
below zero = []
below (suc n) = below n ++ (n ∷ [])

issued-append : (xs ys : List ImageDescriptors) → issued (xs ++ ys) ≡ issued xs ++ issued ys
issued-append [] ys = refl
issued-append (x ∷ xs) ys =
    rw
      (
        issued-append xs ys,
        append_assoc (one x.sampled) (one x.storage ++ issued xs) (issued ys),
        append_assoc (one x.storage) (issued xs) (issued ys),
      )
      refl

set-append :
    (xs ys : List ImageDescriptors) (y z : ImageDescriptors)
    → set (xs ++ (y ∷ ys)) (length xs) z ≡ (xs ++ (z ∷ [])) ++ ys
set-append [] ys y z = refl
set-append (x ∷ xs) ys y z = ap (λ t. x ∷ t) (set-append xs ys y z)

-- The layout that the loop has reached: the images before the next have been given the numbers below
-- the count, which is the sum of the two others, and the images from it on have none.
record Reached (filled left : ℕ) (out : DescriptorLayout) : Type 0 where
  before : List ImageDescriptors
  images : out.images ≡ before ++ replicate left no_descriptors
  position : length before ≡ filled
  numbers : issued before ≡ below out.image_descriptors
  sum : out.image_descriptors ≡ out.sampled_images + out.storage_images
  room : out.image_descriptors ≤ 2 * filled

-- The next image gets its descriptors, which are the next numbers.
advance :
    (d : ImageDescriptors) (filled left : ℕ) (out next : DescriptorLayout)
    → Reached filled (suc left) out
    → next.images ≡ out.images
    → below out.image_descriptors ++ issued (d ∷ []) ≡ below next.image_descriptors
    → next.image_descriptors ≡ next.sampled_images + next.storage_images
    → next.image_descriptors ≤ 2 * suc filled
    → Reached (suc filled) left (record next { images = set next.images filled d })
advance d filled left out next r same numbers sum room = record {
  before = r.before ++ (d ∷ []);
  images =
      rw (same, r.images, ← r.position)
        (set-append r.before (replicate left no_descriptors) no_descriptors d);
  position = omega (arith, length-append r.before (d ∷ []), r.position);
  numbers = rw (issued-append r.before (d ∷ []), r.numbers) numbers;
  sum = sum;
  room = room;
}

-- A number that is given out is not the mark of an image without a descriptor.
one_given : (n : ℕ) → n < 0xFFFF_FFFF → one n ≡ n ∷ []
one_given n h = let e : (n == no_descriptor) ≡ false = ground arith in rw e refl

-- One round of the loop, for an image of a given usage.
abbrev round : Usage → DescriptorLayout → ImageDescriptors × DescriptorLayout
round u out = assign_storage u (assign_sampled u (no_descriptors, out))

abbrev usage_of : Bool → Bool → Usage
usage_of a b = record { sampled = a; storage = b }

step :
    (a b : Bool) (filled left : ℕ) (out : DescriptorLayout)
    → Reached filled (suc left) out
    → 2 * suc filled < 0xFFFF_FFFF
    → Reached (suc filled) left (record (round (usage_of a b) out).1 {
      images = set (round (usage_of a b) out).1.images filled (round (usage_of a b) out).0;
    })
step false false filled left out r fits =
    advance no_descriptors filled left out out r refl (append-nil (below out.image_descriptors))
      r.sum (omega (arith, r.room))
step true false filled left out r fits =
    let n = out.image_descriptors in
    let given = one_given n (omega (arith, r.room, fits)) in
    let next : (n + 1) % 2 ^ 32 ≡ suc n = omega (arith, r.room, fits) in
    advance (round (usage_of true false) out).0 filled left out (round (usage_of true false) out).1
      r refl (rw (given, next) refl) (omega (arith, r.sum, r.room, fits))
      (omega (arith, r.room, fits))
step false true filled left out r fits =
    let n = out.image_descriptors in
    let given = one_given n (omega (arith, r.room, fits)) in
    let next : (n + 1) % 2 ^ 32 ≡ suc n = omega (arith, r.room, fits) in
    advance (round (usage_of false true) out).0 filled left out (round (usage_of false true) out).1
      r refl (rw (given, next) refl) (omega (arith, r.sum, r.room, fits))
      (omega (arith, r.room, fits))
step true true filled left out r fits =
    let n = out.image_descriptors in
    let given = one_given n (omega (arith, r.room, fits)) in
    let next : (n + 1) % 2 ^ 32 ≡ suc n = omega (arith, r.room, fits) in
    let given' = one_given (suc n) (omega (arith, r.room, fits)) in
    let next' : (suc n + 1) % 2 ^ 32 ≡ suc (suc n) = omega (arith, r.room, fits) in
    advance (round (usage_of true true) out).0 filled left out (round (usage_of true true) out).1 r
      refl (rw (next, given, given', next') (sym (append_assoc (below n) (n ∷ []) (suc n ∷ []))))
      (omega (arith, r.sum, r.room, fits)) (omega (arith, r.room, fits))

assign-Reached :
    (usage : List Usage) (filled : ℕ) (out : DescriptorLayout)
    → Reached filled (length usage) out
    → 2 * (filled + length usage) < 0xFFFF_FFFF
    → Reached (filled + length usage) 0 (assign usage filled out)
unfolding assign
assign-Reached [] filled out r fits = let e : filled + 0 ≡ filled = omega arith in rw e r
assign-Reached (u ∷ usage) filled out r fits =
    let e : filled + suc (length usage) ≡ suc filled + length usage = omega arith in
    let next = step u.sampled u.storage filled (length usage) out r (omega (arith, fits)) in
    rw e (assign-Reached usage (suc filled) _ next (omega (arith, fits)))

mark_binding-length :
    (g : Graph) (variant : VariantEntry) (index : ℕ) (usage marked : List Usage)
    → mark_binding g variant index usage ≡ done marked
    → length marked ≡ length usage
unfolding mark_binding
mark_binding-length g variant index usage marked h =
    elim (Option-cases (get_elem? g.bindings (variant.binding_first + index))) [
      | inl none_found ↦ absurd (ground (arith, h, none_found))
      | inr binding ↦
          let (image, e) = binding in
          elim (Option-cases (get_elem? usage image)) [
            | inl none_found ↦ absurd (ground (arith, h, none_found, e))
            | inr found ↦
                let (u, f) = found in
                ground (
                  arith,
                  h,
                  e,
                  f,
                  length-set usage image (record u { sampled = true }),
                  length-set usage image (record u { storage = true }),
                )
          ]
    ]

mark_bindings-length :
    (g : Graph) (variant : VariantEntry) (index count : ℕ) (usage marked : List Usage)
    → mark_bindings g variant index count usage ≡ done marked
    → length marked ≡ length usage
unfolding mark_bindings
mark_bindings-length g variant index zero usage marked h = ground (arith, h)
mark_bindings-length g variant index (suc count) usage marked h =
    let (next, a, b) =
      (>>=-done (mark_binding g variant index usage) (mark_bindings g variant (suc index) count))
        h in
    mark_bindings-length g variant (suc index) count next marked b
    ∙ mark_binding-length g variant index usage next a

mark_variants-length :
    (g : Graph) (variants : List VariantEntry) (usage marked : List Usage)
    → mark_variants g variants usage ≡ done marked
    → length marked ≡ length usage
unfolding mark_variants mark_variant
mark_variants-length g [] usage marked h = ground (arith, h)
mark_variants-length g (variant ∷ variants) usage marked h =
    let (next, a, b) = (>>=-done (mark_variant g variant usage) (mark_variants g variants)) h in
    mark_variants-length g variants next marked b
    ∙ mark_bindings-length g variant 0 (variant.texture_count + variant.storage_count) usage next
        (ground (arith, a))

-- The layout before the second loop.
abbrev blank_layout : Graph → DescriptorLayout
blank_layout g = record {
  images = replicate (length g.images) no_descriptors;
  image_descriptors = 0;
  sampled_images = 0;
  storage_images = 0;
}

all_given :
    (n : ℕ) (out : DescriptorLayout)
    → Reached n 0 out
    → (length out.images ≡ n)
      × (issued out.images ≡ below out.image_descriptors)
      × (out.image_descriptors ≡ out.sampled_images + out.storage_images)
all_given n out r =
    let whole : out.images ≡ r.before = r.images ∙ append-nil r.before in
    (rw whole r.position, rw whole r.numbers, r.sum)

-- Where a graph of fewer than 2 ^ 31 images gets a layout, that has an entry for each image, and
-- the descriptors given out, image by image and the sampled one first, are the numbers from 0 on
-- without a gap; there are as many as sampled and storage images together.
pub describe-issued :
    (g : Graph) (out : DescriptorLayout)
    → describe g ≡ done out
    → 2 * length g.images < 0xFFFF_FFFF
    → (length out.images ≡ length g.images)
      × (issued out.images ≡ below out.image_descriptors)
      × (out.image_descriptors ≡ out.sampled_images + out.storage_images)
unfolding describe
describe-issued g out h fits =
    let (usage, a, b) =
      (>>=-done (mark_variants g g.variants (replicate (length g.images) unused))
          (λ usage. done (assign usage 0 (blank_layout g))))
        h in
    let same : length usage ≡ length g.images =
      mark_variants-length g g.variants (replicate (length g.images) unused) usage a
      ∙ length-replicate (length g.images) unused in
    let total : 0 + length usage ≡ length g.images = omega (arith, same) in
    let e : assign usage 0 (blank_layout g) ≡ out = done-injective _ _ b in
    let r =
      assign-Reached usage 0 (blank_layout g)
        (record {
          before = [];
          images = rw same refl;
          position = refl;
          numbers = refl;
          sum = refl;
          room = omega arith;
        })
        (omega (arith, same, fits)) in
    subst
      (λ out.
        (length out.images ≡ length g.images)
        × (issued out.images ≡ below out.image_descriptors)
        × (out.image_descriptors ≡ out.sampled_images + out.storage_images))
      e (rw total at (all_given (0 + length usage) _ r))
