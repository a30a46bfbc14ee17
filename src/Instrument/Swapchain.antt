-- ===== src/Instrument/Swapchain.antt =====
-- presentation.hpp, presentation.cpp: the swapchain of a window and the textures behind it.
use lsfg_nx.Base.{
  ℕ, zero, suc, ◌+◌, ◌-◌, ◌%◌, ◌^◌, Bool, true, false, not, ◌&&◌, ◌||◌, List, [], ◌∷◌, ◌==◌, ltb,
  if◌then◌else◌, replicate, set, get_or, length, none, some,
}
use lsfg_nx.Instrument.TextureLog.{TextureRecord, TextureLog, no_texture, same_layout_as, find}

abbrev pub capacity : ℕ
capacity = 8

pub record SwapchainMap : Type 0 where
  pub window : ℕ
  pub texture_count : ℕ
  pub resolved_count : ℕ
  pub handles : List ℕ
  pub textures : List TextureRecord
  pub present_interval : ℕ
  pub active_textures : ℕ
  pub uniform : Bool

unfoldable pub clear : SwapchainMap
clear = record {
  window = 0;
  texture_count = 0;
  resolved_count = 0;
  handles = replicate capacity 0;
  textures = replicate capacity no_texture;
  present_interval = 0;
  active_textures = 0;
  uniform = false;
}

abbrev pub complete : SwapchainMap → Bool
complete map = not (map.texture_count == 0) && (map.resolved_count == map.texture_count)

-- One round of the first loop of `adopt`.
abbrev pub resolve_one : TextureLog → SwapchainMap → ℕ → ℕ → SwapchainMap
resolve_one log map index handle =
    let handles = set map.handles index handle in
    elim (find log handle) [
      | none ↦ record map { handles = handles }
      | some found ↦ record map {
        handles = handles;
        textures = set map.textures index found;
        resolved_count = (map.resolved_count + 1) % 2 ^ 32;
      }
    ]

unfoldable pub resolve : TextureLog → SwapchainMap → ℕ → List ℕ → SwapchainMap
resolve log map index [] = map
resolve log map index (handle ∷ handles) =
    resolve log (resolve_one log map index handle) (index + 1) handles

-- The second loop, over the `count` indices from `index` on.
unfoldable pub uniform_from : List TextureRecord → ℕ → ℕ → Bool → Bool
uniform_from textures index zero uniform = uniform
uniform_from textures index (suc count) uniform =
    if uniform
    then uniform_from textures (index + 1) count
        (same_layout_as (get_or textures index no_texture) (get_or textures 0 no_texture))
    else false

-- `SwapchainMap::adopt`: the map that the call leaves, and what it returns.
unfoldable pub adopt : SwapchainMap → ℕ → List ℕ → TextureLog → SwapchainMap × Bool
adopt map window_handle texture_handles log =
    let count = length texture_handles in
    let resolved =
      resolve log (record clear { window = window_handle; texture_count = count }) 0
        texture_handles in
    if (count == 0) || ltb capacity count then (map, false) else (
      record resolved {
        uniform = uniform_from resolved.textures 1 (count - 1) (complete resolved);
      },
      true,
    )

-- The search of `index_of`.
unfoldable pub search_handle : List ℕ → ℕ → ℕ → ℕ → ℕ
search_handle [] count index handle = capacity
search_handle (h ∷ hs) zero index handle = capacity
search_handle (h ∷ hs) (suc count) index handle =
    let rest = search_handle hs count (index + 1) handle in if h == handle then index else rest

unfoldable pub index_of : SwapchainMap → ℕ → ℕ
index_of map handle = search_handle map.handles map.texture_count 0 handle
