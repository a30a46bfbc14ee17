-- ===== src/Backend/Schedule.antt =====
-- runtime/backend schedule.hpp and schedule.cpp: the order of a graph's dispatches, and how many
-- frames have to run before the chain reads only what it has written.
pub mod Lcm
pub mod Frames
pub mod Warmup
pub mod Clean
use lsfg_nx.Base.{
  ℕ, zero, suc, ◌+◌, ◌-◌, ◌*◌, ◌/◌, ◌%◌, ◌^◌, Bool, true, false, not, ◌&&◌, ◌||◌, List, [], ◌∷◌,
  map, ltb, leb, ◌==◌, if◌then◌else◌, length, get_elem?, get_or, set, replicate, Option, none, some,
}
use lsfg_nx.Error.{ErrorCode, succeeded}
use lsfg_nx.Check.{Check, go, stop, fault, ◌>>◌, reject, each}
use lsfg_nx.Graph.{Graph, ImageDesc, VariantEntry, DispatchEntry, add32, role_internal}
use lsfg_nx.Graph.Validate
use lsfg_nx.Outcome.{Outcome, done, failed, faulted, ◌>>=◌, of_check}
use Lcm.{lcm}

pub record StageRange : Type 0 where
  pub first : ℕ
  pub count : ℕ

abbrev pub max_frame_cycle : ℕ
max_frame_cycle = 64

pub record Schedule : Type 0 where
  pub stages : List StageRange
  pub cycle : ℕ
  pub warmup_frames : ℕ

unfoldable pub combine_cycle : ℕ → ℕ → ℕ
combine_cycle cycle variants =
    let combined = lcm cycle variants in
    if variants == 0 then cycle else if ltb max_frame_cycle combined then 0 else combined

abbrev pub empty_range : StageRange
empty_range = record { first = 0; count = 0 }

-- The loop of `lay_out_stages`: the dispatches left, the index of the first of them, the stage
-- reached, and the ranges.
unfoldable pub place_stages :
    List DispatchEntry → ℕ → ℕ → List StageRange → Outcome (ℕ × List StageRange)
place_stages [] index stage stages = done (stage, stages)
place_stages (d ∷ ds) index stage stages =
    let range = get_or stages d.stage empty_range in
    let same =
      place_stages ds (suc index) stage
        (set stages d.stage (record range { count = (range.count + 1) % 2 ^ 32 })) in
    let next =
      place_stages ds (suc index) d.stage
        (set stages d.stage (record { first = index; count = (range.count + 1) % 2 ^ 32 })) in
    if leb (length stages) d.stage
    then failed ErrorCode.cache_integrity_failure
    else if d.stage == stage
    then same
    else if not (d.stage == add32 stage 1)
    then failed ErrorCode.presentation_sequence_invalid
    else next

unfoldable pub any_empty : List StageRange → Bool
any_empty [] = false
any_empty (range ∷ ranges) = range.count == 0 || any_empty ranges

-- The tests of `lay_out_stages` after its loop.
unfoldable pub check_stages : ℕ × List StageRange → Outcome (List StageRange)
check_stages (stage, stages) =
    if not (add32 stage 1 == length stages)
    then failed ErrorCode.presentation_sequence_invalid
    else if any_empty stages
    then failed ErrorCode.presentation_sequence_invalid
    else done stages

unfoldable pub lay_out_stages : Graph → Outcome (List StageRange)
lay_out_stages g =
    place_stages g.dispatches 0 0 (replicate (add32 g.config.generated_frames 1) empty_range)
    >>= check_stages

-- The loop of `schedule` over the dispatches.
unfoldable pub combine_cycles : List DispatchEntry → ℕ → Outcome ℕ
combine_cycles [] cycle = done cycle
combine_cycles (d ∷ ds) cycle =
    let combined = combine_cycle cycle d.variant_count in
    let rest = combine_cycles ds combined in
    if combined == 0 then failed ErrorCode.cache_integrity_failure else rest

abbrev pub needs_writing : ImageDesc → Bool
needs_writing desc = desc.role == role_internal

-- One read of a texture: `none` stands for a read outside an array.
unfoldable pub read_texture : Graph → ℕ → List Bool → Bool → Option Bool
read_texture g index written clean = elim (get_elem? g.bindings index) [
  | none ↦ none
  | some image ↦ elim (get_elem? g.images image) [
    | none ↦ none
    | some desc ↦ elim (get_elem? written image) [
      | none ↦ none
      | some mark ↦ some (clean && (not (needs_writing desc) || mark))
    ]
  ]
]

unfoldable pub read_textures : Graph → ℕ → ℕ → List Bool → Bool → Option Bool
read_textures g index zero written clean = some clean
read_textures g index (suc count) written clean = elim (read_texture g index written clean) [
  | none ↦ none
  | some clean' ↦ read_textures g (suc index) count written clean'
]

-- One write: the image is marked, and `none` stands for a write outside the marks.
unfoldable pub write_storage : Graph → ℕ → List Bool → Option (List Bool)
write_storage g index written = elim (get_elem? g.bindings index) [
  | none ↦ none
  | some image ↦ elim (get_elem? written image) [
    | none ↦ none
    | some mark ↦ some (set written image true)
  ]
]

unfoldable pub write_storages : Graph → ℕ → ℕ → List Bool → Option (List Bool)
write_storages g index zero written = some written
write_storages g index (suc count) written = elim (write_storage g index written) [
  | none ↦ none
  | some written' ↦ write_storages g (suc index) count written'
]

-- The body of the loop of `run_frame`, over `graph.dispatches`. Its state is whether the frame is
-- clean so far, and the marks.
unfoldable pub run_dispatch :
    Graph → ℕ → DispatchEntry → Bool × List Bool → Option (Bool × List Bool)
run_dispatch g frame entry (clean, written) =
    elim (get_elem? g.variants (add32 entry.variant_first (frame % entry.variant_count))) [
      | none ↦ none
      | some variant ↦
          elim (read_textures g variant.binding_first variant.texture_count written clean) [
            | none ↦ none
            | some clean' ↦
                elim (write_storages g (variant.binding_first + variant.texture_count)
                  variant.storage_count written) [
                    | none ↦ none
                    | some written' ↦ some (clean', written')
                  ]
          ]
    ]

unfoldable pub run_dispatches :
    Graph → ℕ → List DispatchEntry → Bool × List Bool → Option (Bool × List Bool)
run_dispatches g frame [] state = some state
run_dispatches g frame (entry ∷ entries) state = elim (run_dispatch g frame entry state) [
  | none ↦ none
  | some state' ↦ run_dispatches g frame entries state'
]

unfoldable pub run_frame : Graph → ℕ → List Bool → Option (Bool × List Bool)
run_frame g frame written = run_dispatches g frame g.dispatches (true, written)

-- The loop of `measure_warmup`: the frames left, the next frame, the marks and the warm-up so far.
unfoldable pub measure_frames : Graph → ℕ → ℕ → ℕ → List Bool → ℕ → Outcome ℕ
measure_frames g cycle zero frame written warmup = done warmup
measure_frames g cycle (suc left) frame written warmup = elim (run_frame g frame written) [
  | none ↦ faulted
  | some (clean, written') ↦ elim clean [
    | true ↦ measure_frames g cycle left (suc frame) written' warmup
    | false ↦ elim (leb cycle frame) [
      | true ↦ failed ErrorCode.cache_integrity_failure
      | false ↦ measure_frames g cycle left (suc frame) written' (frame + 1)
    ]
  ]
]

unfoldable pub measure_warmup : Graph → ℕ → Outcome ℕ
measure_warmup g cycle =
    measure_frames g cycle (2 * cycle % 2 ^ 32) 0 (replicate (length g.images) false) 0

unfoldable pub schedule : Graph → Outcome Schedule
schedule g = of_check (Validate.validate g) >>= λ valid. lay_out_stages g >>= λ stages.
    combine_cycles g.dispatches 1 >>= λ cycle. measure_warmup g cycle >>= λ warmup.
    done (record { stages = stages; cycle = cycle; warmup_frames = warmup })

-- `Schedule::dispatches` and `Schedule::generated_frames`.
unfoldable pub sum_counts : List StageRange → ℕ → ℕ
sum_counts [] total = total
sum_counts (range ∷ ranges) total = sum_counts ranges ((total + range.count) % 2 ^ 32)

unfoldable pub dispatches : Schedule → ℕ
dispatches s = sum_counts s.stages 0

unfoldable pub generated_frames : Schedule → ℕ
generated_frames s = if length s.stages == 0 then 0 else (length s.stages - 1) % 2 ^ 32
