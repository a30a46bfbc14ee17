-- ===== src/Graph/Extent.antt =====
-- image_graph.cpp: the extents of a graph's images and the memory that they take.
use lsfg_nx.Base.{
  ℕ, zero, suc, ◌+◌, ◌*◌, ◌/◌, ◌%◌, ◌^◌, ◌||◌, List, [], ◌∷◌, leb, ◌==◌, if◌then◌else◌,
}
use lsfg_nx.Graph.{
  Config, ImageDesc, Graph, base_output, base_flow, base_fixed, format_rgba8, format_r8,
  format_rgba16f, role_history, role_generated, add32,
}

pub record Extent : Type 0 where
  pub width : ℕ
  pub height : ℕ

-- One side of the flow extent.
abbrev pub flow_side : Config → ℕ → ℕ
flow_side config side = side * config.flow_numerator / config.flow_denominator % 2 ^ 32

unfoldable pub flow_extent : Config → Extent → Extent
flow_extent config output =
    if config.flow_denominator == 0
    then output
    else record { width = flow_side config output.width; height = flow_side config output.height }

abbrev pub shift_down : ℕ → ℕ → ℕ
shift_down value amount = if leb 32 amount then 0 else value / 2 ^ amount

-- `value = (value + 1U) >> 1U`, as often as the image says.
unfoldable pub ceil_halve : ℕ → ℕ → ℕ
ceil_halve zero value = value
ceil_halve (suc step) value = ceil_halve step (add32 value 1 / 2)

-- One side of an image that is not fixed.
abbrev pub evaluate_side : ImageDesc → ℕ → ℕ
evaluate_side desc side =
    shift_down (ceil_halve desc.ceil_halvings (shift_down side desc.shift_before)) desc.shift_after

abbrev pub evaluate_from : ImageDesc → Extent → Extent
evaluate_from desc extent = record {
  width = evaluate_side desc extent.width;
  height = evaluate_side desc extent.height;
}

unfoldable pub evaluate : ImageDesc → Extent → Extent → Extent
evaluate desc output flow =
    if desc.base == base_fixed
    then record { width = desc.fixed_width; height = desc.fixed_height }
    else if desc.base == base_output
    then evaluate_from desc output
    else if desc.base == base_flow
    then evaluate_from desc flow
    else evaluate_from desc (record { width = 0; height = 0 })

unfoldable pub bytes_per_pixel : ℕ → ℕ
bytes_per_pixel format =
    if format == format_rgba8
    then 4
    else if format == format_r8
    then 1
    else if format == format_rgba16f
    then 8
    else 0

-- What one image takes: products and sums of 64-bit numbers, which wrap.
abbrev pub image_bytes : ImageDesc → Extent → ℕ
image_bytes desc extent =
    extent.width * extent.height % 2 ^ 64 * bytes_per_pixel desc.format % 2 ^ 64

unfoldable pub sum_bytes : List ImageDesc → Extent → Extent → ℕ → ℕ
sum_bytes [] output flow total = total
sum_bytes (desc ∷ images) output flow total = sum_bytes images output flow (
    if desc.role == role_history || desc.role == role_generated
    then total
    else (total + image_bytes desc (evaluate desc output flow)) % 2 ^ 64)

unfoldable pub owned_memory_bytes : Graph → Extent → ℕ
owned_memory_bytes g output = sum_bytes g.images output (flow_extent g.config output) 0
