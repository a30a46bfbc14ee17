-- ===== src/Graph/Builder.antt =====
-- image_graph.cpp: the class `Builder`, the descriptions of images, and the steps of a build: they
-- change the graph, and may fail. What a failed build leaves in its output is not modelled.
use Prim.Native.String.{String}
use lsfg_nx.Base.{
  ℕ, zero, suc, ◌+◌, ◌-◌, ◌%◌, ◌^◌, Bool, ◌||◌, List, [], ◌∷◌, ◌++◌, ltb, ◌==◌, if◌then◌else◌,
  length, replicate, take, get_elem?, none, some,
}
use lsfg_nx.Error.{ErrorCode}
use lsfg_nx.Outcome.{Outcome, done, failed, faulted}
use lsfg_nx.Graph.{
  ImageDesc, VariantEntry, DispatchEntry, Graph, max_dispatch_samplers, no_uniform_buffer,
}
use lsfg_nx.Graph.Shaders.{slot_index, invalid_slot}

abbrev pub Build : Type 0 → Type 0
Build A = Graph → Outcome (A × Graph)

infixl 5 ◌>>=◌ ◌>>◌
abbrev pub ◌>>=◌ : {A B : Type 0} → Build A → (A → Build B) → Build B
◌>>=◌ m f g = elim (m g) [ done (a, g') ↦ f a g' | failed e ↦ failed e | faulted ↦ faulted ]

abbrev pub ◌>>◌ : {B : Type 0} → Build (Unit {0}) → Build B → Build B
m >> k = m >>= λ _. k

abbrev pub pure : {A : Type 0} → A → Build A
pure a g = done (a, g)

-- `xs[i]`
abbrev pub at : {A : Type 0} → List A → ℕ → Build A
at xs i g = elim (get_elem? xs i) [ none ↦ faulted | some x ↦ done (x, g) ]

-- `for (k = i; k < i + n; ++k)`, over the variables that its body changes.
unfoldable pub loop : {S : Type 0} → ℕ → ℕ → (ℕ → S → Build S) → S → Build S
loop i zero body s = pure s
loop i (suc n) body s = body i s >>= loop (suc i) n body

-- A difference of 32-bit numbers, which wraps.
abbrev pub sub32 : ℕ → ℕ → ℕ
sub32 a b = (a + 2 ^ 32 - b) % 2 ^ 32

-- `Sampler`.
abbrev pub border_black : ℕ
border_black = 0

abbrev pub border_white : ℕ
border_white = 1

abbrev pub edge : ℕ
edge = 2

-- `ImageDesc{}`, with a base, a format and a role.
abbrev pub image_desc : ℕ → ℕ → ℕ → ImageDesc
image_desc base format role = record {
  base = base;
  shift_before = 0;
  ceil_halvings = 0;
  shift_after = 0;
  fixed_width = 0;
  fixed_height = 0;
  format = format;
  role = role;
}

abbrev pub halved : ImageDesc → ImageDesc
halved desc = record desc { ceil_halvings = (desc.ceil_halvings + 1) % 2 ^ 8 }

abbrev pub shifted : ImageDesc → ImageDesc
shifted desc =
    if desc.ceil_halvings == 0
    then record desc { shift_before = (desc.shift_before + 1) % 2 ^ 8 }
    else record desc { shift_after = (desc.shift_after + 1) % 2 ^ 8 }

abbrev pub as_format : ImageDesc → ℕ → ImageDesc
as_format desc format = record desc { format = format }

pub record VariantDraft : Type 0 where
  pub textures : List ℕ
  pub storages : List ℕ
  pub samplers : List ℕ
  pub uniform_buffer : ℕ

-- A draft that leaves the uniform buffer at its default.
abbrev pub draft_of : List ℕ → List ℕ → List ℕ → VariantDraft
draft_of textures storages samplers = record {
  textures = textures;
  storages = storages;
  samplers = samplers;
  uniform_buffer = no_uniform_buffer;
}

-- `Builder::add`
unfoldable pub add : ImageDesc → Build ℕ
add desc g = done (length g.images % 2 ^ 32, record g { images = g.images ++ (desc ∷ []) })

-- `Builder::add_many`: the images left, and the indices so far.
unfoldable pub add_more : ImageDesc → ℕ → List ℕ → Build (List ℕ)
unfolding add
add_more desc zero indices = pure indices
add_more desc (suc count) indices =
    add desc >>= λ index. add_more desc count (indices ++ (index ∷ []))

unfoldable pub add_many : ImageDesc → ℕ → Build (List ℕ)
unfolding add_more
add_many desc count = add_more desc count []

abbrev pub is_empty : {A : Type 0} → List A → Bool
is_empty xs = length xs == 0

-- The entry of a draft; the array of samplers is filled up with zeros.
abbrev pub variant_entry : Graph → VariantDraft → VariantEntry
variant_entry g draft = record {
  binding_first = length g.bindings % 2 ^ 32;
  texture_count = length draft.textures % 2 ^ 16;
  storage_count = length draft.storages % 2 ^ 16;
  samplers = take max_dispatch_samplers (draft.samplers ++ replicate max_dispatch_samplers 0);
  sampler_count = length draft.samplers % 2 ^ 8;
  uniform_buffer = draft.uniform_buffer;
}

-- The body of the loop of `Builder::dispatch` over the drafts.
unfoldable pub add_variant : VariantDraft → Build (Unit {0})
add_variant draft g =
    if is_empty draft.storages || ltb max_dispatch_samplers (length draft.samplers)
    then failed ErrorCode.invalid_state
    else done (
      tt,
      record g {
        bindings = (g.bindings ++ draft.textures) ++ draft.storages;
        variants = g.variants ++ (variant_entry g draft ∷ []);
      },
    )

unfoldable pub add_variants : List VariantDraft → Build (Unit {0})
unfolding add_variant
add_variants [] = pure tt
add_variants (draft ∷ drafts) = add_variant draft >> add_variants drafts

-- `variants.front().storages.front()`
abbrev pub first_storage : List VariantDraft → Build ℕ
first_storage variants = at variants 0 >>= λ draft. at draft.storages 0

unfoldable pub push_dispatch : DispatchEntry → Build (Unit {0})
push_dispatch entry g = done (tt, record g { dispatches = g.dispatches ++ (entry ∷ []) })

-- `Builder::dispatch`
unfoldable pub dispatch : String → ℕ → ℕ → List VariantDraft → Build (Unit {0})
unfolding add_variants push_dispatch
dispatch name grid_shift stage variants g =
    let slot = slot_index name in
    let variant_first = length g.variants % 2 ^ 32 in
    if slot == invalid_slot || is_empty variants
    then failed ErrorCode.invalid_state
    else (add_variants variants
          >> (first_storage variants >>= λ grid_image. push_dispatch (record {
            slot = slot;
            grid_image = grid_image;
            variant_first = variant_first;
            variant_count = length variants % 2 ^ 16;
            grid_shift = grid_shift;
            stage = stage;
          })))
        g
