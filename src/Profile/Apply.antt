-- ===== src/Profile/Apply.antt =====
-- profile.cpp: what a key with its value sets.
use lsfg_nx.Base.{
  ℕ, ◌-◌, ◌%◌, ◌^◌, min, Bool, true, false, not, ◌&&◌, ◌||◌, List, [], ◌∷◌, ◌++◌, Option, none,
  some, ltb, leb, ◌==◌, if◌then◌else◌, length, take, drop, replicate,
}
use lsfg_nx.Error.{ErrorCode}
use lsfg_nx.Outcome.{Outcome, done, failed, ◌>>=◌}
use lsfg_nx.Profile.Text.{same_text, parse_hex_id, parse_number}
use lsfg_nx.Profile.{
  BuildEntry, Presentation, Profile, Progress, Section, Seen, version_view, codes, max_builds,
  name_capacity, version_capacity,
}

-- `memcpy` to the start of an array.
abbrev pub copy_front : List ℕ → List ℕ → List ℕ
copy_front array bytes = bytes ++ drop (length bytes) array

abbrev pub parse_boolean : List ℕ → Option Bool
parse_boolean text =
    if same_text text (codes "true") || same_text text (codes "yes") || same_text text (codes "1")
    then some true
    else if same_text text (codes "false")
        || same_text text (codes "no")
        || same_text text (codes "0")
    then some false
    else none

abbrev pub section_for : List ℕ → Section
section_for name =
    if same_text name (codes "title")
    then Section.title
    else if same_text name (codes "builds")
    then Section.builds
    else if same_text name (codes "presentation")
    then Section.presentation
    else Section.ignored

-- The cases of `apply_title`.
unfoldable pub apply_name : List ℕ → Profile → Seen → Outcome Progress
apply_name value out seen =
    let size = min (length value) (name_capacity - 1) in
    if seen.name
    then failed ErrorCode.invalid_argument
    else done (
      record out { name = copy_front out.name (take size value); name_size = size % 2 ^ 8 },
      record seen { name = true },
    )

unfoldable pub apply_title_id : List ℕ → Profile → Seen → Outcome Progress
apply_title_id value out seen =
    if seen.title_id then failed ErrorCode.invalid_argument else elim (parse_hex_id value) [
      | none ↦ failed ErrorCode.invalid_argument
      | some id ↦ done (record out { title_id = id }, record seen { title_id = true })
    ]

unfoldable pub apply_supported : List ℕ → Profile → Seen → Outcome Progress
apply_supported value out seen =
    if seen.supported then failed ErrorCode.invalid_argument else elim (parse_boolean value) [
      | none ↦ failed ErrorCode.invalid_argument
      | some b ↦ done (record out { supported = b }, record seen { supported = true })
    ]

unfoldable pub apply_title : List ℕ → List ℕ → Profile → Seen → Outcome Progress
apply_title key value out seen =
    if same_text key (codes "name")
    then apply_name value out seen
    else if same_text key (codes "title_id")
    then apply_title_id value out seen
    else if same_text key (codes "supported")
    then apply_supported value out seen
    else done (out, seen)

-- Whether a build has a version or an identifier already.
unfoldable pub has_build : List ℕ → ℕ → List BuildEntry → Bool
has_build key build_id [] = false
has_build key build_id (entry ∷ entries) =
    (same_text (version_view entry) key || entry.build_id == build_id)
    || has_build key build_id entries

abbrev pub build_entry : List ℕ → ℕ → BuildEntry
build_entry key build_id = record {
  version = copy_front (replicate 16 0) key;
  version_size = length key % 2 ^ 8;
  build_id = build_id;
}

unfoldable pub apply_build : List ℕ → List ℕ → Profile → Outcome Profile
apply_build key value out =
    if length key == 0 || ltb version_capacity (length key)
    then failed ErrorCode.invalid_argument
    else elim (parse_hex_id value) [
      | none ↦ failed ErrorCode.invalid_argument
      | some build_id ↦
          if has_build key build_id out.builds
          then failed ErrorCode.invalid_argument
          else if leb max_builds (length out.builds)
          then failed ErrorCode.invalid_argument
          else done (record out { builds = out.builds ++ (build_entry key build_id ∷ []) })
    ]

-- A number below a limit, or an error.
abbrev pub number_for : List ℕ → ℕ → Outcome ℕ
number_for value limit = elim (parse_number value limit) [
  | none ↦ failed ErrorCode.invalid_argument
  | some number ↦ done number
]

-- The fields that a number of one byte sets, and those of a number of four.
abbrev pub set_small : List ℕ → Presentation → ℕ → Presentation
set_small key out number =
    if same_text key (codes "present_interval")
    then record out { present_interval = number }
    else record out { swapchain_buffers = number }

abbrev pub set_large : List ℕ → Presentation → ℕ → Presentation
set_large key out number =
    if same_text key (codes "texture_format")
    then record out { texture_format = number }
    else if same_text key (codes "handheld_width")
    then record out { handheld_width = number }
    else record out { handheld_height = number }

unfoldable pub apply_presentation : List ℕ → List ℕ → Presentation → Outcome Presentation
apply_presentation key value out =
    if same_text key (codes "present_interval") || same_text key (codes "swapchain_buffers")
    then number_for value 0xff >>= (λ number. done (set_small key out number))
    else if not (same_text key (codes "texture_format"))
        && not (same_text key (codes "handheld_width"))
        && not (same_text key (codes "handheld_height"))
    then done out
    else number_for value 0xffff_ffff >>= (λ number. done (set_large key out number))
