-- ===== src/Backend/Load/Dispatches.antt =====
-- cache_load.cpp: the dispatches of an accepted plan.
use lsfg_nx.Base.{
  ℕ, suc, ◌+◌, ◌-◌, ◌*◌, ◌%◌, ◌^◌, ◌≤◌, ◌<◌, ◌≡◌, ◌⊎◌, inl, inr, arith, refl, ap, subst, sym, ◌∙◌,
  Bool-cases, Option-cases, ==_iff, List, [], ◌∷◌, ◌++◌, append_assoc, append-nil, some, ◌==◌,
  get_elem?, All, All-get_elem?,
}
use native.Mathlib.Nat.{one-le-pow}
use lsfg_nx.Base.Bits.{two-pow_mono}
use lsfg_nx.Graph.{DispatchEntry}
use lsfg_nx.Graph.Modules.{block_index_of}
use lsfg_nx.Cache.Store.{LoadedPass, Loaded}
use lsfg_nx.Backend.Load.{ImagePlan, DispatchPlan, Plan, accepted, >>=-accepted, no_pass}
use lsfg_nx.Backend.Load.Accept.{
  groups_for, find_pass, add_dispatch, plan_dispatch, plan_dispatches,
}

find_pass_cases :
    (passes : List LoadedPass) (candidate block_index : ℕ)
    → (find_pass passes candidate block_index ≡ no_pass)
      ⊎ ((k : ℕ) × (pass : LoadedPass) × (find_pass passes candidate block_index ≡ candidate + k)
          × (get_elem? passes k ≡ some pass)
          × (pass.entry.block_index ≡ block_index))
unfolding find_pass
find_pass_cases [] candidate block_index = inl refl
find_pass_cases (pass ∷ passes) candidate block_index =
    elim (Bool-cases (pass.entry.block_index == block_index)) [
      | inl here ↦
          inr (
            0,
            pass,
            rw here (omega arith),
            refl,
            (==_iff pass.entry.block_index block_index).0 here,
          )
      | inr further ↦ elim (find_pass_cases passes (suc candidate) block_index) [
        | inl none_found ↦ inl (rw further none_found)
        | inr found ↦
            let (k, p, e, f, g) = found in inr (suc k, p, rw further (omega (arith, e)), f, g)
      ]
    ]

-- The groups cover an extent, and no whole tile lies past it.
abbrev pub Covers : ℕ → ℕ → ℕ → Type 0
Covers groups tile extent = (extent ≤ groups * tile) × (groups * tile < extent + tile)

groups_for-Covers :
    (extent tile : ℕ)
    → 0 < tile
    → extent + tile < 2 ^ 32
    → Covers (groups_for extent tile) tile extent
groups_for-Covers extent tile pos small =
    let e : ((extent + tile) % 2 ^ 32 + 2 ^ 32 - 1) % 2 ^ 32 ≡ extent + tile - 1 = omega arith in
    rw e (grind arith, grind arith)

-- The plan of a dispatch: the pass of its module, and groups that cover its image.
pub record DispatchPlanned (cache : Loaded) (images : List ImagePlan) (dispatch : DispatchEntry)
    (planned : DispatchPlan) : Type 0 where
  pub pass : LoadedPass
  pub held : get_elem? cache.passes planned.pass ≡ some pass
  pub block : pass.entry.block_index ≡ block_index_of cache.graph dispatch
  pub image : ImagePlan
  pub over : get_elem? images dispatch.grid_image ≡ some image
  pub shift : dispatch.grid_shift < 32
  pub covers_x : Covers planned.groups_x (2 ^ dispatch.grid_shift) image.extent.width
  pub covers_y : Covers planned.groups_y (2 ^ dispatch.grid_shift) image.extent.height

-- What one dispatch adds to a plan.
pub record Added (cache : Loaded) (dispatch : DispatchEntry) (plan next : Plan) : Type 0 where
  pub planned : DispatchPlan
  pub is_planned : DispatchPlanned cache plan.images dispatch planned
  pub dispatches : next.dispatches ≡ plan.dispatches ++ (planned ∷ [])
  pub images : next.images ≡ plan.images
  pub owned : next.owned_image_bytes ≡ plan.owned_image_bytes

-- Sides on which the sums with a tile do not wrap.
abbrev pub IsSmall : ImagePlan → Type 0
IsSmall image = (image.extent.width < 2 ^ 31) × (image.extent.height < 2 ^ 31)

plan_dispatch-Added :
    (cache : Loaded) (dispatch : DispatchEntry) (index : ℕ) (plan next : Plan)
    → All IsSmall plan.images
    → plan_dispatch cache dispatch index plan ≡ accepted next
    → Added cache dispatch plan next
unfolding plan_dispatch add_dispatch
plan_dispatch-Added cache dispatch index plan next small h =
    let block = block_index_of cache.graph dispatch in
    elim (find_pass_cases cache.passes 0 block) [
      | inl none_found ↦ absurd (ground (arith, h, none_found))
      | inr found ↦
          let (k, pass, e, held, same) = found in
          elim (Option-cases (get_elem? plan.images dispatch.grid_image)) [
            | inl outside ↦ absurd (ground (arith, h, outside))
            | inr inside ↦
                let (image, over) = inside in
                let shift : dispatch.grid_shift < 32 = ground (arith, h, over) in
                let pos : 0 < 2 ^ dispatch.grid_shift =
                  one-le-pow dispatch.grid_shift 2 (omega arith) in
                let low : 2 ^ dispatch.grid_shift ≤ 2 ^ 31 =
                  two-pow_mono dispatch.grid_shift 31 (omega (arith, shift)) in
                let (x, y) =
                  All-get_elem? IsSmall plan.images dispatch.grid_image image small over in
                let planned : DispatchPlan = record {
                  pass = 0 + k;
                  groups_x = groups_for image.extent.width (2 ^ dispatch.grid_shift);
                  groups_y = groups_for image.extent.height (2 ^ dispatch.grid_shift);
                } in
                record {
                  planned = planned;
                  is_planned = record {
                    pass = pass;
                    held = let z : 0 + k ≡ k = omega arith in rw z held;
                    block = same;
                    image = image;
                    over = over;
                    shift = shift;
                    covers_x =
                        groups_for-Covers image.extent.width (2 ^ dispatch.grid_shift) pos
                          (omega (arith, x, low));
                    covers_y =
                        groups_for-Covers image.extent.height (2 ^ dispatch.grid_shift) pos
                          (omega (arith, y, low));
                  };
                  dispatches = ground (arith, h, e, over);
                  images = ground (arith, h, e, over);
                  owned = ground (arith, h, e, over);
                }
          ]
    ]

-- The plans of the dispatches, one for each and in their order.
abbrev pub AllPlanned : Loaded → List ImagePlan → List DispatchEntry → List DispatchPlan → Type 0
AllPlanned cache images [] [] = Unit
AllPlanned cache images [] (p ∷ ps) = ⊥
AllPlanned cache images (d ∷ ds) [] = ⊥
AllPlanned cache images (d ∷ ds) (p ∷ ps) =
    DispatchPlanned cache images d p × AllPlanned cache images ds ps

-- What the dispatches add to a plan.
pub record DispatchesPlanned (cache : Loaded) (dispatches : List DispatchEntry) (plan next : Plan)
    : Type 0 where
  pub planned : List DispatchPlan
  pub are_planned : AllPlanned cache plan.images dispatches planned
  pub added : next.dispatches ≡ plan.dispatches ++ planned
  pub images : next.images ≡ plan.images
  pub owned : next.owned_image_bytes ≡ plan.owned_image_bytes

pub plan_dispatches-Planned :
    (cache : Loaded) (dispatches : List DispatchEntry) (index : ℕ) (plan next : Plan)
    → All IsSmall plan.images
    → plan_dispatches cache dispatches index plan ≡ accepted next
    → DispatchesPlanned cache dispatches plan next
unfolding plan_dispatches
plan_dispatches-Planned cache [] index plan next small h =
    let same : next.dispatches ≡ plan.dispatches = ground (arith, h) in
    record {
      planned = [];
      are_planned = tt;
      added = same ∙ sym (append-nil plan.dispatches);
      images = ground (arith, h);
      owned = ground (arith, h);
    }
plan_dispatches-Planned cache (dispatch ∷ dispatches) index plan next small h =
    let (here, a, b) =
      (>>=-accepted (plan_dispatch cache dispatch index plan)
          (plan_dispatches cache dispatches (suc index)))
        h in
    let one = plan_dispatch-Added cache dispatch index plan here small a in
    let rest =
      plan_dispatches-Planned cache dispatches (suc index) here next
        (subst (All IsSmall) (sym one.images) small) b in
    record {
      planned = one.planned ∷ rest.planned;
      are_planned = (
        one.is_planned,
        subst (λ is. AllPlanned cache is dispatches rest.planned) one.images rest.are_planned,
      );
      added =
          rest.added
          ∙ ap (λ ds. ds ++ rest.planned) one.dispatches
          ∙ append_assoc plan.dispatches (one.planned ∷ []) rest.planned;
      images = rest.images ∙ one.images;
      owned = rest.owned ∙ one.owned;
    }
