-- ===== src/Instrument/TextureLog.antt =====
-- presentation.hpp, presentation.cpp: the log of the last 64 textures that the game built.
pub mod Laws
use lsfg_nx.Base.{
  ℕ, zero, suc, ◌+◌, ◌%◌, ◌^◌, min, Bool, true, false, not, ◌&&◌, List, [], ◌∷◌, ◌==◌,
  if◌then◌else◌, replicate, set, Option, none, some,
}

pub record TextureRecord : Type 0 where
  pub handle : ℕ
  pub memory_pool : ℕ
  pub pool_address : ℕ
  pub pool_cpu_address : ℕ
  pub texture_address : ℕ
  pub storage_offset : ℕ
  pub storage_size : ℕ
  pub pool_size : ℕ
  pub storage_alignment : ℕ
  pub width : ℕ
  pub height : ℕ
  pub depth : ℕ
  pub levels : ℕ
  pub samples : ℕ
  pub format : ℕ
  pub flags : ℕ
  pub target : ℕ
  pub stride : ℕ
  pub pool_flags : ℕ
  pub storage_class : ℕ

-- `TextureRecord{}`.
abbrev pub no_texture : TextureRecord
no_texture = record {
  handle = 0;
  memory_pool = 0;
  pool_address = 0;
  pool_cpu_address = 0;
  texture_address = 0;
  storage_offset = 0;
  storage_size = 0;
  pool_size = 0;
  storage_alignment = 0;
  width = 0;
  height = 0;
  depth = 0;
  levels = 0;
  samples = 0;
  format = 0;
  flags = 0;
  target = 0;
  stride = 0;
  pool_flags = 0;
  storage_class = 0;
}

abbrev pub valid : TextureRecord → Bool
valid t = not (t.handle == 0)

unfoldable pub same_layout_as : TextureRecord → TextureRecord → Bool
same_layout_as t other =
    t.width == other.width
    && t.height == other.height
    && t.depth == other.depth
    && t.levels == other.levels
    && t.samples == other.samples
    && t.format == other.format
    && t.flags == other.flags
    && t.target == other.target
    && t.stride == other.stride
    && t.storage_size == other.storage_size
    && t.storage_alignment == other.storage_alignment
    && t.storage_class == other.storage_class
    && t.pool_flags == other.pool_flags

abbrev pub capacity : ℕ
capacity = 64

pub record TextureLog : Type 0 where
  pub entries : List TextureRecord
  pub next : ℕ
  pub size : ℕ
  pub observed : ℕ

unfoldable pub empty : TextureLog
empty = record { entries = replicate capacity no_texture; next = 0; size = 0; observed = 0 }

-- The loops of `record` and `find`: the first of the first `n` entries with the handle.
unfoldable pub index_of : List TextureRecord → ℕ → ℕ → Option ℕ
index_of [] n handle = none
index_of (e ∷ es) zero handle = none
index_of (e ∷ es) (suc n) handle =
    let rest = index_of es n handle in
    if e.handle == handle then some 0 else elim rest [ none ↦ none | some i ↦ some (suc i) ]

unfoldable pub entry_of : List TextureRecord → ℕ → ℕ → Option TextureRecord
entry_of [] n handle = none
entry_of (e ∷ es) zero handle = none
entry_of (e ∷ es) (suc n) handle =
    let rest = entry_of es n handle in if e.handle == handle then some e else rest

-- `TextureLog::record`.
unfoldable pub record_texture : TextureLog → TextureRecord → TextureLog
record_texture log texture =
    let observed = (log.observed + 1) % 2 ^ 64 in
    if not (valid texture) then log else elim (index_of log.entries log.size texture.handle) [
      | some index ↦ record log { observed = observed; entries = set log.entries index texture }
      | none ↦ record {
        entries = set log.entries log.next texture;
        next = (log.next + 1) % capacity;
        size = min (log.size + 1) capacity;
        observed = observed;
      }
    ]

unfoldable pub find : TextureLog → ℕ → Option TextureRecord
find log handle = if handle == 0 then none else entry_of log.entries log.size handle
