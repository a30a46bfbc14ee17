-- ===== src/Profile/Parse.antt =====
-- profile.cpp: `parse`.
use lsfg_nx.Base.{
  ℕ, ◌-◌, false, not, ◌||◌, List, [], ◌∷◌, Option, none, some, ltb, ◌==◌, if◌then◌else◌, length,
  take,
}
use lsfg_nx.Error.{ErrorCode}
use lsfg_nx.Outcome.{Outcome, done, failed, ◌>>=◌}
use lsfg_nx.Profile.Text.{trim}
use lsfg_nx.Profile.{Profile, Section, Seen, empty_profile, max_text_size}
use lsfg_nx.Profile.Apply.{section_for, apply_title, apply_build, apply_presentation}

-- The lines of a text; after the last line break there is one more, which may be empty.
abbrev onto_first : ℕ → List (List ℕ) → List (List ℕ)
onto_first c [] = (c ∷ []) ∷ []
onto_first c (line ∷ lines) = (c ∷ line) ∷ lines

unfoldable pub lines_of : List ℕ → List (List ℕ)
lines_of [] = [] ∷ []
lines_of (c ∷ text) = if c == 10 then [] ∷ lines_of text else onto_first c (lines_of text)

-- The text before the first `=` and the text after it.
unfoldable pub split_at_separator : List ℕ → Option (List ℕ × List ℕ)
split_at_separator [] = none
split_at_separator (c ∷ text) =
    if c == b'='
    then some ([], text)
    else elim (split_at_separator text) [ none ↦ none | some (key, value) ↦ some (c ∷ key, value) ]

-- The last byte of a line, and the bytes between its first and its last.
unfoldable pub last_byte : ℕ → List ℕ → ℕ
last_byte c [] = c
last_byte c (d ∷ text) = last_byte d text

abbrev pub inner : List ℕ → List ℕ
inner text = take (length text - 1) text

pub record Parser : Type 0 where
  pub section : Section
  pub out : Profile
  pub seen : Seen

-- A key and its value, in the section of the parser.
unfoldable pub apply_in : Section → List ℕ → List ℕ → Parser → Outcome Parser
apply_in Section.title key value p =
    apply_title key value p.out p.seen >>= λ next. done (record p { out = next.0; seen = next.1 })
apply_in Section.builds key value p =
    apply_build key value p.out >>= λ next. done (record p { out = next })
apply_in Section.presentation key value p =
    apply_presentation key value p.out.presentation >>= λ next.
    done (record p { out = record p.out { presentation = next } })
apply_in Section.top key value p = failed ErrorCode.invalid_argument
apply_in Section.ignored key value p = done p

-- A line that is a key with a value.
unfoldable pub parse_entry : List ℕ → Parser → Outcome Parser
parse_entry line p = elim (split_at_separator line) [
  | none ↦ failed ErrorCode.invalid_argument
  | some (before, after) ↦
      if length (trim before) == 0
      then failed ErrorCode.invalid_argument
      else apply_in p.section (trim before) (trim after) p
]

-- The body of the loop, on a trimmed line.
unfoldable pub parse_line : List ℕ → Parser → Outcome Parser
parse_line [] p = done p
parse_line (c ∷ rest) p =
    if c == b';' || c == b'#'
    then done p
    else if c == b'['
    then (if not (last_byte c rest == b']')
        then failed ErrorCode.invalid_argument
        else done (record p { section = section_for (trim (inner rest)) }))
    else parse_entry (c ∷ rest) p

-- The loop over the lines.
unfoldable pub parse_lines : List (List ℕ) → Parser → Outcome Parser
parse_lines [] p = done p
parse_lines (line ∷ lines) p = parse_line (trim line) p >>= parse_lines lines

unfoldable pub parse : List ℕ → Outcome Profile
parse text = if ltb max_text_size (length text) then failed ErrorCode.invalid_argument else do
  p ← parse_lines (lines_of text) (record {
    section = Section.top;
    out = empty_profile;
    seen = record { name = false; title_id = false; supported = false };
  })
  if p.seen.title_id then done p.out else failed ErrorCode.invalid_argument
