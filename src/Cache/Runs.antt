-- ===== src/Cache/Runs.antt =====
-- cache_format.cpp: what the validation of a whole cache accepts.
use lsfg_nx.Base.{
  ℕ, ◌+◌, ◌%◌, ◌^◌, ◌≤◌, ◌<◌, ◌≡◌, ◌↔◌, arith, refl, inl, inr, List, length, some, get_elem?, All,
  Option-cases, ==_iff, All-iff,
}
use lsfg_nx.Check.{go, read, each, for_range}
use lsfg_nx.Check.Laws.{each-go, for_range-read}
use lsfg_nx.Graph.{Graph, DispatchEntry, VariantEntry, add32}
use lsfg_nx.Graph.Modules.{block_index_of, uniform_buffers}
use lsfg_nx.Graph.WellFormed.{WellFormed, Addressable, validate_iff as validate_graph_iff}
use lsfg_nx.Cache.{ManifestHeader, PassEntry, SlotEntry}
use lsfg_nx.Cache.Validate.{
  check_binds, check_module, check_runs, check_pass, find_module, validate,
}
use lsfg_nx.Cache.Accepts.{HeaderOk, PassOk, SlotsOk, validate_header_iff, check_pass_iff}

-- A variant binds just what a module declares.
pub record Binds (entry : PassEntry) (variant : VariantEntry) : Type 0 where
  pub textures : variant.texture_count ≡ entry.image_count
  pub storages : variant.storage_count ≡ entry.storage_image_count
  pub samplers : variant.sampler_count ≡ entry.sampler_count
  pub uniforms : uniform_buffers variant ≡ entry.uniform_buffer_count

check_binds_iff :
    (entry : PassEntry) (variant : VariantEntry)
    → (check_binds entry variant ≡ go) ↔ Binds entry variant
unfolding check_binds
check_binds_iff entry variant = (λ h. ground arith, λ h. ground arith)

-- A module for a dispatch: its workgroup is a square that tiles the dispatch's tile, and every
-- variant of the dispatch is in the graph and binds what the module declares.
pub record Serves (g : Graph) (dispatch : DispatchEntry) (entry : PassEntry) : Type 0 where
  pub flat : entry.workgroup_z ≡ 1
  pub square : entry.workgroup_x ≡ entry.workgroup_y
  pub some_thread : 0 < entry.workgroup_x
  pub tiles : 2 ^ dispatch.grid_shift % entry.workgroup_x ≡ 0
  pub fits : entry.workgroup_x ≤ 2 ^ dispatch.grid_shift
  pub binds :
      (offset : ℕ)
      → offset < dispatch.variant_count
      → (variant : VariantEntry) × (get_elem? g.variants (dispatch.variant_first + offset)
          ≡ some variant)
        × Binds entry variant

variants_loop :
    (g : Graph) (dispatch : DispatchEntry) (entry : PassEntry)
    → dispatch.variant_first + dispatch.variant_count < 2 ^ 32
    → (for_range 0 dispatch.variant_count
          (λ offset. read g.variants (add32 dispatch.variant_first offset) (check_binds entry))
        ≡ go)
      ↔ ((offset : ℕ)
          → offset < dispatch.variant_count
          → (variant : VariantEntry) × (get_elem? g.variants (dispatch.variant_first + offset)
              ≡ some variant)
            × Binds entry variant)
variants_loop g dispatch entry fits =
    let loop =
      for_range-read g.variants dispatch.variant_first dispatch.variant_count (check_binds entry)
        fits in
    (
      λ h offset k.
          let (variant, e, s) = loop.0 h offset k in
          (variant, e, (check_binds_iff entry variant).0 s),
      λ ok. loop.1 (λ offset k.
          let (variant, e, s) = ok offset k in (variant, e, (check_binds_iff entry variant).1 s)),
    )

check_module_iff :
    (g : Graph) (dispatch : DispatchEntry) (entry : PassEntry)
    → dispatch.variant_first + dispatch.variant_count < 2 ^ 32
    → (check_module g dispatch entry ≡ go) ↔ Serves g dispatch entry
unfolding check_module
check_module_iff g dispatch entry fits = (
  λ h. record {
    flat = ground (arith, h);
    square = ground (arith, h);
    some_thread = ground (arith, h);
    tiles = ground (arith, h);
    fits = ground (arith, h);
    binds = (variants_loop g dispatch entry fits).0 (ground (arith, h));
  },
  λ s.
      let loop = (variants_loop g dispatch entry fits).1 s.binds in
      ground (arith, s.flat, s.square, s.some_thread, s.tiles, s.fits, loop),
)

-- The cache holds the module that a dispatch runs: the first pass with its block index.
pub record RunOk (g : Graph) (passes : List PassEntry) (dispatch : DispatchEntry) : Type 0 where
  pub shift : dispatch.grid_shift < 32
  pub entry : PassEntry
  pub found : find_module passes (block_index_of g dispatch) ≡ some entry
  pub serves : Serves g dispatch entry

check_runs_iff :
    (g : Graph) (passes : List PassEntry) (dispatch : DispatchEntry)
    → dispatch.variant_first + dispatch.variant_count < 2 ^ 32
    → (check_runs g passes dispatch ≡ go) ↔ RunOk g passes dispatch
unfolding check_runs
check_runs_iff g passes dispatch fits = (
  λ h. elim (Option-cases (find_module passes (block_index_of g dispatch))) [
    | inl none_found ↦ absurd (ground (arith, h, none_found))
    | inr found ↦
        let (entry, e) = found in
        record {
          shift = ground (arith, h);
          entry = entry;
          found = e;
          serves = (check_module_iff g dispatch entry fits).0 (ground (arith, h, e));
        }
  ],
  λ r.
      let s = (check_module_iff g dispatch r.entry fits).1 r.serves in
      ground (arith, s, r.shift, r.found),
)

-- A cache in order: its header describes a graph in order, its passes are in order and their slots
-- in the list, and it holds a module for every dispatch.
pub record CacheOk (header : ManifestHeader) (passes : List PassEntry) (slots : List SlotEntry)
    (g : Graph) : Type 0 where
  pub header_ok : HeaderOk header
  pub pass_count : length passes ≡ header.pass_count
  pub slot_count : length slots ≡ header.slot_count
  pub passes_ok :
      All (λ p. PassOk p × (p.slot_first + p.slot_count ≤ length slots) × SlotsOk slots p) passes
  pub graph_ok : WellFormed g
  pub image_count : header.image_count ≡ length g.images
  pub dispatch_count : header.dispatch_count ≡ length g.dispatches
  pub variant_count : header.variant_count ≡ length g.variants
  pub binding_count : header.binding_count ≡ length g.bindings
  pub uniform_buffer_count : header.uniform_buffer_count ≡ g.uniform_buffer_count
  pub runs_ok : All (RunOk g passes) g.dispatches

passes_loop :
    (passes : List PassEntry) (slots : List SlotEntry)
    → All (λ p. p.slot_first + p.slot_count < 2 ^ 32) passes
    → (each passes (check_pass slots) ≡ go)
      ↔ All (λ p. PassOk p × (p.slot_first + p.slot_count ≤ length slots) × SlotsOk slots p) passes
passes_loop passes slots fits =
    let loop = each-go passes (check_pass slots) in
    let all =
      All-iff (λ p. p.slot_first + p.slot_count < 2 ^ 32) (λ p. check_pass slots p ≡ go)
        (λ p. PassOk p × (p.slot_first + p.slot_count ≤ length slots) × SlotsOk slots p)
        (λ p. check_pass_iff slots p) passes fits in
    (λ h. all.0 (loop.0 h), λ h. loop.1 (all.1 h))

runs_loop :
    (g : Graph) (passes : List PassEntry)
    → Addressable g
    → (each g.dispatches (check_runs g passes) ≡ go) ↔ All (RunOk g passes) g.dispatches
runs_loop g passes a =
    let loop = each-go g.dispatches (check_runs g passes) in
    let all =
      All-iff (λ d. d.variant_first + d.variant_count < 2 ^ 32) (λ d. check_runs g passes d ≡ go)
        (RunOk g passes) (λ d. check_runs_iff g passes d) g.dispatches a.variants_fit in
    (λ h. all.0 (loop.0 h), λ h. loop.1 (all.1 h))

-- While the offsets of the passes and of the graph fit 32-bit sums, validation accepts just the
-- caches that are in order, and reads no array out of bounds and does no undefined shift on these.
pub validate_cache_iff :
    (header : ManifestHeader) (passes : List PassEntry) (slots : List SlotEntry) (g : Graph)
    → All (λ p. p.slot_first + p.slot_count < 2 ^ 32) passes
    → Addressable g
    → (validate header passes slots g ≡ go) ↔ CacheOk header passes slots g
unfolding validate
validate_cache_iff header passes slots g fits a = (
  λ h. record {
    header_ok = (validate_header_iff header).0 (ground (arith, h));
    pass_count = ground (arith, h);
    slot_count = ground (arith, h);
    passes_ok = (passes_loop passes slots fits).0 (ground (arith, h));
    graph_ok = (validate_graph_iff g a).0 (ground (arith, h));
    image_count = ground (arith, h);
    dispatch_count = ground (arith, h);
    variant_count = ground (arith, h);
    binding_count = ground (arith, h);
    uniform_buffer_count = ground (arith, h);
    runs_ok = (runs_loop g passes a).0 (ground (arith, h));
  },
  λ c.
      rw
        (
          (validate_header_iff header).1 c.header_ok,
          (==_iff (length passes) header.pass_count).1 c.pass_count,
          (==_iff (length slots) header.slot_count).1 c.slot_count,
          (passes_loop passes slots fits).1 c.passes_ok,
          (validate_graph_iff g a).1 c.graph_ok,
          (==_iff header.image_count (length g.images)).1 c.image_count,
          (==_iff header.dispatch_count (length g.dispatches)).1 c.dispatch_count,
          (==_iff header.variant_count (length g.variants)).1 c.variant_count,
          (==_iff header.binding_count (length g.bindings)).1 c.binding_count,
          (==_iff header.uniform_buffer_count g.uniform_buffer_count).1 c.uniform_buffer_count,
          (runs_loop g passes a).1 c.runs_ok,
        )
        refl,
)
