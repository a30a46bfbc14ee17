-- ===== src/Backend/Binding/Issued.antt =====
-- layout.cpp and binding.cpp: the descriptors of a binding are those that the layout gives out.
use lsfg_nx.Base.{
  ℕ, zero, suc, ◌*◌, ◌<◌, ◌≡◌, ◌≢◌, ◌⊎◌, inl, inr, arith, refl, subst, List, [], ◌∷◌, ◌++◌, some,
  length, get_elem?, All, Contains, append_assoc, append-nil, ◌∙◌, Bool-cases, ==_iff, ◌==◌, sym,
}
use mathlib.Core.Option.{some-injective}
use lsfg_nx.Outcome.{done}
use lsfg_nx.Cache.{SlotEntry}
use lsfg_nx.Cache.Store.{Loaded}
use lsfg_nx.Graph.{VariantEntry}
use lsfg_nx.Backend.Layout.{ImageDescriptors, DescriptorLayout, no_descriptor, describe}
use lsfg_nx.Backend.Layout.Issued.{one, issued, below, describe-issued}
use lsfg_nx.Backend.Load.{Plan}
use lsfg_nx.Backend.Binding.{TextureBinding, StorageBinding, DispatchBinding, bind}
use lsfg_nx.Backend.Binding.Loop.{Holds}
use lsfg_nx.Backend.Binding.Bound.{bind-Bound}

Contains-left : (a : ℕ) (xs ys : List ℕ) → Contains a xs → Contains a (xs ++ ys)
Contains-left a [] ys h = elim h [ ]
Contains-left a (x ∷ xs) ys (inl e) = inl e
Contains-left a (x ∷ xs) ys (inr h) = inr (Contains-left a xs ys h)

Contains-right : (a : ℕ) (xs ys : List ℕ) → Contains a ys → Contains a (xs ++ ys)
Contains-right a [] ys h = h
Contains-right a (x ∷ xs) ys h = inr (Contains-right a xs ys h)

-- The numbers before `n` are less.
below_bound : (a n : ℕ) (left : List ℕ) → Contains a (below n ++ left) → (a < n) ⊎ Contains a left
below_bound a zero left h = inr h
below_bound a (suc n) left h =
    elim (below_bound a n (n ∷ left)
      (subst (Contains a) (append_assoc (below n) (n ∷ []) left) h)) [
        | inl low ↦ inl (omega (arith, low))
        | inr (inl last) ↦ inl (omega (arith, last))
        | inr (inr further) ↦ inr further
      ]

one-Contains : (a : ℕ) → a ≢ no_descriptor → Contains a (one a)
one-Contains a h = elim (Bool-cases (a == no_descriptor)) [
  | inl e ↦ absurd (h ((==_iff a no_descriptor).0 e))
  | inr e ↦ rw e (inl refl)
]

-- The descriptors of an image are given out.
issued-Contains :
    (images : List ImageDescriptors) (i : ℕ) (d : ImageDescriptors)
    → get_elem? images i ≡ some d
    → (d.sampled ≢ no_descriptor → Contains d.sampled (issued images))
      × (d.storage ≢ no_descriptor → Contains d.storage (issued images))
issued-Contains [] i d e = cc
issued-Contains (x ∷ xs) zero d e =
    let same = some-injective x d e in
    subst
      (λ y.
        (y.sampled ≢ no_descriptor → Contains y.sampled (issued (x ∷ xs)))
        × (y.storage ≢ no_descriptor → Contains y.storage (issued (x ∷ xs))))
      same
      (
        λ h. Contains-left x.sampled (one x.sampled) _ (one-Contains x.sampled h),
        λ h.
            Contains-right x.storage (one x.sampled) _
              (Contains-left x.storage (one x.storage) _ (one-Contains x.storage h)),
      )
issued-Contains (x ∷ xs) (suc i) d e =
    let (a, b) = issued-Contains xs i d e in
    let further : (n : ℕ) → Contains n (issued xs) → Contains n (issued (x ∷ xs)) =
      λ n h. Contains-right n (one x.sampled) _ (Contains-right n (one x.storage) _ h) in
    (λ h. further d.sampled (a h), λ h. further d.storage (b h))

-- Below a bound, for each texture and for each storage image.
abbrev pub AllBelow : ℕ → List TextureBinding → List StorageBinding → Type 0
AllBelow n ts ss = All (λ t. t.descriptor < n) ts × All (λ s. s.descriptor < n) ss

Holds-AllBelow :
    (descriptors : DescriptorLayout) (variant : VariantEntry) (bindings : List ℕ) (n : ℕ)
    → ((a : ℕ) → Contains a (issued descriptors.images) → a < n)
    → (slots : List SlotEntry) (ts : List TextureBinding) (ss : List StorageBinding)
    → Holds descriptors variant bindings slots ts ss
    → AllBelow n ts ss
Holds-AllBelow descriptors variant bindings n low _ _ _ Holds.empty = (tt, tt)
Holds-AllBelow descriptors variant bindings n low _ _ _
      (Holds.texture {slots = slots} {t = t} {ts = ts} {ss = ss} k b rest) =
    let (sampled, storage) = issued-Contains descriptors.images t.image b.found b.laid_out in
    let (textures, storages) = Holds-AllBelow descriptors variant bindings n low slots ts ss rest in
    let below_n = low b.found.sampled (sampled (λ e. b.assigned (b.descriptor ∙ e))) in
    ((omega (arith, below_n, b.descriptor), textures), storages)
Holds-AllBelow descriptors variant bindings n low _ _ _
      (Holds.storage {slots = slots} {s = s} {ts = ts} {ss = ss} k b rest) =
    let (sampled, storage) = issued-Contains descriptors.images s.image b.found b.laid_out in
    let (textures, storages) = Holds-AllBelow descriptors variant bindings n low slots ts ss rest in
    let below_n = low b.found.storage (storage (λ e. b.assigned (b.descriptor ∙ e))) in
    (textures, (omega (arith, below_n, b.descriptor), storages))
Holds-AllBelow descriptors variant bindings n low _ _ _
      (Holds.uniform {slots = slots} {ts = ts} {ss = ss} k rest) =
    Holds-AllBelow descriptors variant bindings n low slots ts ss rest

-- Where the layout is the one that `describe` makes for the graph, of fewer than 2 ^ 31 images, every
-- descriptor that an accepted `bind` leaves is among those that the layout counts.
pub bind-issued :
    (cache : Loaded) (plan : Plan) (descriptors : DescriptorLayout) (dispatch phase : ℕ)
    (out : DispatchBinding)
    → 2 * length cache.graph.images < 0xFFFF_FFFF
    → describe cache.graph ≡ done descriptors
    → bind cache plan descriptors dispatch phase ≡ done out
    → AllBelow descriptors.image_descriptors out.textures out.storages
bind-issued cache plan descriptors dispatch phase out few described h =
    let b = bind-Bound cache plan descriptors dispatch phase out h in
    let (_, numbers, _) = describe-issued cache.graph descriptors described few in
    let n = descriptors.image_descriptors in
    let low : (a : ℕ) → Contains a (issued descriptors.images) → a < n = λ a c.
      elim (below_bound a n []
        (subst (Contains a) (sym (append-nil (below n))) (subst (Contains a) numbers c))) [
          | inl l ↦ l
          | inr none_left ↦ elim none_left [ ]
        ] in
    Holds-AllBelow descriptors b.variant _ n low b.pass.slots out.textures out.storages b.held
