-- ===== src/Cache/Accepts.antt =====
-- cache_format.cpp: what the functions `validate` accept of a header, a pass and a slot.
use lsfg_nx.Base.{
  ℕ, ◌+◌, ◌^◌, ◌≤◌, ◌<◌, ◌≡◌, ◌↔◌, ◌⊎◌, arith, refl, false, not, ◌||◌, ltb, ◌==◌, List, length,
  some, get_elem?,
}
use lsfg_nx.Check.{go, read, for_range}
use lsfg_nx.Check.Laws.{>>-go, for_range-read}
use lsfg_nx.Graph.{add32}
use lsfg_nx.Cache.{ManifestHeader, PassEntry, SlotEntry}
use lsfg_nx.Cache.Validate.{out_of_range, validate_header, validate_pass, check_slot, check_pass}

-- A header of this version, whose counts are in range.
pub record HeaderOk (header : ManifestHeader) : Type 0 where
  pub magic : header.magic ≡ 0x4746_534C
  pub abi_version : header.abi_version ≡ 2
  pub extractor_version : header.extractor_version ≡ 1
  pub graph_version : header.graph_version ≡ 1
  pub dll_size : 0 < header.dll_size
  pub passes : (0 < header.pass_count) × (header.pass_count ≤ 64)
  pub slots : (0 < header.slot_count) × (header.slot_count ≤ 4096)
  pub images : (0 < header.image_count) × (header.image_count ≤ 4096)
  pub dispatches : (0 < header.dispatch_count) × (header.dispatch_count ≤ 1024)
  pub variants : (0 < header.variant_count) × (header.variant_count ≤ 2048)
  pub bindings : (0 < header.binding_count) × (header.binding_count ≤ 65536)
  pub shaders : (0 < header.shader_block_size) × (header.shader_precision ≤ 1)
  pub flow : (0 < header.flow_numerator) × (header.flow_numerator ≤ header.flow_denominator)

-- The validation of a header succeeds just where the header is of this version and its counts are in
-- range.
pub validate_header_iff :
    (header : ManifestHeader) → (validate_header header ≡ go) ↔ HeaderOk header
unfolding validate_header
validate_header_iff header = (λ h. ground arith, passes)
  where
    in_range : (n most : ℕ) → (0 < n) × (n ≤ most) → out_of_range n most ≡ false
    in_range n most h = ground arith

    passes : HeaderOk header → validate_header header ≡ go
    passes h =
        let a : not (header.magic == 0x4746_534C) ≡ false = ground (arith, h.magic) in
        let b : not (header.abi_version == 2) ≡ false = ground (arith, h.abi_version) in
        let c : not (header.extractor_version == 1) ≡ false = ground (arith, h.extractor_version) in
        let d : not (header.graph_version == 1) ≡ false = ground (arith, h.graph_version) in
        let e : (header.dll_size == 0) ≡ false = ground (arith, h.dll_size) in
        let f = in_range header.pass_count 64 h.passes in
        let g = in_range header.slot_count 4096 h.slots in
        let i = in_range header.image_count 4096 h.images in
        let j = in_range header.dispatch_count 1024 h.dispatches in
        let k = in_range header.variant_count 2048 h.variants in
        let l = in_range header.binding_count 65536 h.bindings in
        let m : (header.shader_block_size == 0 || ltb 1 header.shader_precision) ≡ false =
          ground (arith, h.shaders) in
        let n : (header.flow_numerator == 0
              || header.flow_denominator == 0
              || ltb header.flow_denominator header.flow_numerator)
            ≡ false =
          ground (arith, h.flow) in
        rw (a, b, c, d, e, f, g, i, j, k, l, m, n) refl

-- A pass with a module, a workgroup and slots, of which there are as many as resources; its images
-- have a texture slot each.
pub record PassOk (entry : PassEntry) : Type 0 where
  pub dksh_size : 0 < entry.dksh_size
  pub workgroup : (0 < entry.workgroup_x) × (0 < entry.workgroup_y) × (0 < entry.workgroup_z)
  pub some_slot : 0 < entry.slot_count
  pub slots :
      entry.slot_count
      ≡ add32 (add32 entry.texture_slot_count entry.storage_image_count) entry.uniform_buffer_count
  pub images : entry.image_count ≤ entry.texture_slot_count

pub validate_pass_iff : (entry : PassEntry) → (validate_pass entry ≡ go) ↔ PassOk entry
unfolding validate_pass
validate_pass_iff entry = (λ h. ground arith, λ h. ground arith)

-- A slot names a resource that its pass has.
abbrev pub SlotOk : PassEntry → SlotEntry → Type 0
SlotOk entry slot =
    ((slot.kind ≡ 0)
      × (slot.slot < entry.uniform_buffer_count)
      × (slot.ordinal < entry.uniform_buffer_count))
    ⊎ ((slot.kind ≡ 1)
        × (slot.slot < entry.texture_slot_count)
        × (slot.ordinal < entry.image_count)
        × ((slot.sampler_ordinal ≡ 0xFF) ⊎ (slot.sampler_ordinal < entry.sampler_count)))
    ⊎ ((slot.kind ≡ 2)
        × (slot.slot < entry.storage_image_count)
        × (slot.ordinal < entry.storage_image_count))

check_slot_iff :
    (entry : PassEntry) (slot : SlotEntry) → (check_slot entry slot ≡ go) ↔ SlotOk entry slot
unfolding check_slot
check_slot_iff entry slot = (λ h. ground arith, λ h. ground arith)

-- The slots of a pass are in the list, and each is one of the pass.
abbrev pub SlotsOk : List SlotEntry → PassEntry → Type 0
SlotsOk slots entry =
    (index : ℕ)
    → index < entry.slot_count
    → (slot : SlotEntry) × (get_elem? slots (entry.slot_first + index) ≡ some slot)
      × SlotOk entry slot

read_slots_iff :
    (slots : List SlotEntry) (entry : PassEntry)
    → entry.slot_first + entry.slot_count < 2 ^ 32
    → (for_range 0 entry.slot_count (λ i. read slots (add32 entry.slot_first i) (check_slot entry))
        ≡ go)
      ↔ SlotsOk slots entry
read_slots_iff slots entry fits =
    let loop = for_range-read slots entry.slot_first entry.slot_count (check_slot entry) fits in
    (
      λ h index k.
          let (slot, e, s) = loop.0 h index k in (slot, e, (check_slot_iff entry slot).0 s),
      λ ok.
          loop.1 (λ index k.
            let (slot, e, s) = ok index k in (slot, e, (check_slot_iff entry slot).1 s)),
    )

-- While the end of its slots fits 32 bits, a pass is accepted, and no slot outside the list is read,
-- just where it is in order, its slots are in the list, and each names a resource of the pass.
pub check_pass_iff :
    (slots : List SlotEntry) (entry : PassEntry)
    → entry.slot_first + entry.slot_count < 2 ^ 32
    → (check_pass slots entry ≡ go)
      ↔ (PassOk entry × (entry.slot_first + entry.slot_count ≤ length slots) × SlotsOk slots entry)
unfolding check_pass
check_pass_iff slots entry fits = (
  λ h.
      let (a, more) = (>>-go (validate_pass entry) _).0 h in
      let (b, loop) = (>>-go _ (for_range 0 entry.slot_count _)).0 more in
      (
        (validate_pass_iff entry).0 a,
        ground (arith, fits, b),
        (read_slots_iff slots entry fits).0 loop,
      ),
  λ (a, b, c). (>>-go (validate_pass entry) _).1 (
    (validate_pass_iff entry).1 a,
    (>>-go _ (for_range 0 entry.slot_count _)).1
        (ground (arith, fits, b), (read_slots_iff slots entry fits).1 c),
  ),
)
