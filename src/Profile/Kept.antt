-- ===== src/Profile/Kept.antt =====
-- profile.cpp: what each line keeps.
use lsfg_nx.Base.{
  ℕ, ◌≤◌, ◌<◌, ◌≡◌, arith, ◌∙◌, ◌||◌, not, ◌&&◌, Option-cases, inl, inr, List, [], ◌∷◌, ltb, leb,
  ◌==◌, length, take, min, length-append, length-take, All-append,
}
use lsfg_nx.Error.{ErrorCode}
use lsfg_nx.Outcome.{
  done, Ensures, Ensures-done, Ensures-failed, Ensures-result, Ensures-if, Ensures-guard,
  Ensures-bind,
}
use lsfg_nx.Profile.Text.{trim, same_text, parse_hex_id, parse_number}
use lsfg_nx.Profile.Numbers.{parse_hex_id_bound, parse_number_bound}
use lsfg_nx.Profile.{Presentation, Profile, Progress, Section, Seen, codes}
use lsfg_nx.Profile.Apply.{
  parse_boolean, apply_name, apply_title_id, apply_supported, apply_title, has_build, build_entry,
  apply_build, number_for, set_small, set_large, apply_presentation, section_for,
}
use lsfg_nx.Profile.Parse.{
  Parser, apply_in, split_at_separator, last_byte, inner, lines_of, parse_entry, parse_line,
  parse_lines, parse,
}
use lsfg_nx.Profile.Valid.{
  IsBuild, IsPresentation, IsProfile, empty_profile-IsProfile, length-copy_front,
  build_entry-IsBuild, has_build-Differ, Distinct-append,
}

-- A step that keeps the profile in order.
abbrev Keeps : Progress → Type 0
Keeps next = IsProfile next.0

apply_name-Keeps :
    (value : List ℕ) (p : Profile) (seen : Seen)
    → IsProfile p
    → Ensures Keeps (apply_name value p seen)
unfolding apply_name
apply_name-Keeps value p seen v =
    let size = min (length value) 63 in
    let taken : length (take size value) ≤ 63 = omega (arith, length-take size value) in
    Ensures-guard Keeps seen.name ErrorCode.invalid_argument _ λ _. Ensures-result Keeps _ (record {
      array = length-copy_front p.name (take size value) (omega (arith, taken, v.array)) ∙ v.array;
      named = omega arith;
      identified = v.identified;
      few = v.few;
      builds = v.builds;
      distinct = v.distinct;
      presentation = v.presentation;
    })

apply_title_id-Keeps :
    (value : List ℕ) (p : Profile) (seen : Seen)
    → IsProfile p
    → Ensures Keeps (apply_title_id value p seen)
unfolding apply_title_id
apply_title_id-Keeps value p seen v =
    Ensures-guard Keeps seen.title_id ErrorCode.invalid_argument _ λ _.
      elim (Option-cases (parse_hex_id value)) [
        | inl wrong ↦ rw wrong (Ensures-failed Keeps ErrorCode.invalid_argument)
        | inr right ↦
            let (id, e) = right in
            rw e (
              Ensures-result Keeps _ (record {
                array = v.array;
                named = v.named;
                identified = parse_hex_id_bound value id e;
                few = v.few;
                builds = v.builds;
                distinct = v.distinct;
                presentation = v.presentation;
              }))
      ]

apply_supported-Keeps :
    (value : List ℕ) (p : Profile) (seen : Seen)
    → IsProfile p
    → Ensures Keeps (apply_supported value p seen)
unfolding apply_supported
apply_supported-Keeps value p seen v =
    Ensures-guard Keeps seen.supported ErrorCode.invalid_argument _ λ _.
      elim (Option-cases (parse_boolean value)) [
        | inl wrong ↦ rw wrong (Ensures-failed Keeps ErrorCode.invalid_argument)
        | inr right ↦
            let (b, e) = right in
            rw e (
              Ensures-result Keeps _ (record {
                array = v.array;
                named = v.named;
                identified = v.identified;
                few = v.few;
                builds = v.builds;
                distinct = v.distinct;
                presentation = v.presentation;
              }))
      ]

apply_title-Keeps :
    (key value : List ℕ) (p : Profile) (seen : Seen)
    → IsProfile p
    → Ensures Keeps (apply_title key value p seen)
unfolding apply_title
apply_title-Keeps key value p seen v =
    Ensures-if Keeps (same_text key (codes "name")) _ _ (λ _. apply_name-Keeps value p seen v)
      λ _.
        Ensures-if Keeps (same_text key (codes "title_id")) _ _
          (λ _. apply_title_id-Keeps value p seen v)
          λ _.
            Ensures-if Keeps (same_text key (codes "supported")) _ _
              (λ _. apply_supported-Keeps value p seen v) (λ _. Ensures-result Keeps (p, seen) v)

apply_build-IsProfile :
    (key value : List ℕ) (p : Profile) → IsProfile p → Ensures IsProfile (apply_build key value p)
unfolding apply_build
apply_build-IsProfile key value p v =
    Ensures-guard IsProfile (length key == 0 || ltb 16 (length key)) ErrorCode.invalid_argument _
      λ sized. elim (Option-cases (parse_hex_id value)) [
        | inl wrong ↦ rw wrong (Ensures-failed IsProfile ErrorCode.invalid_argument)
        | inr right ↦
            let (id, e) = right in
            let size : (0 < length key) × (length key ≤ 16) =
              (ground (arith, sized), ground (arith, sized)) in
            let word = parse_hex_id_bound value id e in
            let entry = build_entry key id in
            rw e (
              Ensures-guard IsProfile (has_build key id p.builds) ErrorCode.invalid_argument _
                λ new.
                  Ensures-guard IsProfile (leb 8 (length p.builds)) ErrorCode.invalid_argument _
                    λ room. Ensures-result IsProfile _ (record {
                      array = v.array;
                      named = v.named;
                      identified = v.identified;
                      few = ground (arith, room, length-append p.builds (entry ∷ []));
                      builds =
                          All-append IsBuild p.builds (entry ∷ []) v.builds
                            (build_entry-IsBuild key id size word, tt);
                      distinct =
                          Distinct-append p.builds entry v.distinct
                            (has_build-Differ key id size word p.builds new);
                      presentation = v.presentation;
                    }))
      ]

number_for_bound : (value : List ℕ) (limit : ℕ) → Ensures (λ n. n ≤ limit) (number_for value limit)
number_for_bound value limit = elim (Option-cases (parse_number value limit)) [
  | inl wrong ↦ rw (wrong, number_for) (Ensures-failed (λ n. n ≤ limit) ErrorCode.invalid_argument)
  | inr right ↦
      let (n, e) = right in
      rw (e, number_for) (Ensures-result (λ m. m ≤ limit) n (parse_number_bound value limit n e))
]

apply_presentation-IsPresentation :
    (key value : List ℕ) (p : Presentation)
    → IsPresentation p
    → Ensures IsPresentation (apply_presentation key value p)
unfolding apply_presentation
apply_presentation-IsPresentation key value p v =
    Ensures-if IsPresentation
      (same_text key (codes "present_interval") || same_text key (codes "swapchain_buffers")) _ _
      (λ _.
        Ensures-bind (λ n. n ≤ 0xff) IsPresentation (number_for value 0xff) _
          (number_for_bound value 0xff)
          λ n l. Ensures-result IsPresentation (set_small key p n) (ground arith))
      λ _.
        Ensures-if IsPresentation
          (not (same_text key (codes "texture_format"))
            && not (same_text key (codes "handheld_width"))
            && not (same_text key (codes "handheld_height")))
          _ _ (λ _. Ensures-result IsPresentation p v)
          λ _.
            Ensures-bind (λ n. n ≤ 0xffff_ffff) IsPresentation (number_for value 0xffff_ffff) _
              (number_for_bound value 0xffff_ffff)
              λ n l. Ensures-result IsPresentation (set_large key p n) (ground arith)

abbrev KeepsParser : Parser → Type 0
KeepsParser p = IsProfile p.out

with_presentation-IsProfile :
    (p : Profile) (next : Presentation)
    → IsProfile p
    → IsPresentation next
    → IsProfile (record p { presentation = next })
with_presentation-IsProfile p next v n = record {
  array = v.array;
  named = v.named;
  identified = v.identified;
  few = v.few;
  builds = v.builds;
  distinct = v.distinct;
  presentation = n;
}

apply_in-KeepsParser :
    (section : Section) (key value : List ℕ) (p : Parser)
    → KeepsParser p
    → Ensures KeepsParser (apply_in section key value p)
unfolding apply_in
apply_in-KeepsParser Section.top key value p v =
    Ensures-failed KeepsParser ErrorCode.invalid_argument
apply_in-KeepsParser Section.title key value p v =
    Ensures-bind Keeps KeepsParser (apply_title key value p.out p.seen) _
      (apply_title-Keeps key value p.out p.seen v)
      λ next n. Ensures-result KeepsParser (record p { out = next.0; seen = next.1 }) n
apply_in-KeepsParser Section.builds key value p v =
    Ensures-bind IsProfile KeepsParser (apply_build key value p.out) _
      (apply_build-IsProfile key value p.out v)
      λ next n. Ensures-result KeepsParser (record p { out = next }) n
apply_in-KeepsParser Section.presentation key value p v =
    Ensures-bind IsPresentation KeepsParser (apply_presentation key value p.out.presentation) _
      (apply_presentation-IsPresentation key value p.out.presentation v.presentation)
      λ next n.
        Ensures-result KeepsParser (record p { out = record p.out { presentation = next } })
          (with_presentation-IsProfile p.out next v n)
apply_in-KeepsParser Section.ignored key value p v = Ensures-result KeepsParser p v

parse_entry-KeepsParser :
    (line : List ℕ) (p : Parser) → KeepsParser p → Ensures KeepsParser (parse_entry line p)
unfolding parse_entry
parse_entry-KeepsParser line p v = elim (Option-cases (split_at_separator line)) [
  | inl absent ↦ rw (absent, parse_entry) (Ensures-failed KeepsParser ErrorCode.invalid_argument)
  | inr present ↦
      let ((before, after), e) = present in
      rw (e, parse_entry)
        (Ensures-guard KeepsParser (length (trim before) == 0) ErrorCode.invalid_argument _
          λ _. apply_in-KeepsParser p.section (trim before) (trim after) p v)
]

parse_line-KeepsParser :
    (line : List ℕ) (p : Parser) → KeepsParser p → Ensures KeepsParser (parse_line line p)
unfolding parse_line
parse_line-KeepsParser [] p v = Ensures-result KeepsParser p v
parse_line-KeepsParser (c ∷ rest) p v =
    Ensures-if KeepsParser (c == b';' || c == b'#') _ _ (λ _. Ensures-result KeepsParser p v)
      λ _.
        Ensures-if KeepsParser (c == b'[') _ _
          (λ _.
            Ensures-guard KeepsParser (not (last_byte c rest == b']')) ErrorCode.invalid_argument _
              λ _.
                Ensures-result KeepsParser (record p { section = section_for (trim (inner rest)) })
                  v)
          (λ _. parse_entry-KeepsParser (c ∷ rest) p v)

parse_lines-KeepsParser :
    (lines : List (List ℕ)) (p : Parser) → KeepsParser p → Ensures KeepsParser (parse_lines lines p)
unfolding parse_lines
parse_lines-KeepsParser [] p v = Ensures-result KeepsParser p v
parse_lines-KeepsParser (line ∷ lines) p v =
    Ensures-bind KeepsParser KeepsParser (parse_line (trim line) p) (parse_lines lines)
      (parse_line-KeepsParser (trim line) p v) (parse_lines-KeepsParser lines)

-- An accepted text leaves a profile in order: the name and the versions within their arrays, the
-- identifiers and numbers within their words, and at most eight builds, of which no two have the same
-- version or the same identifier.
pub parse-IsProfile : (text : List ℕ) (p : Profile) → parse text ≡ done p → IsProfile p
unfolding parse
parse-IsProfile text p h =
    Ensures-done IsProfile _ p
      (Ensures-guard IsProfile (ltb 8192 (length text)) ErrorCode.invalid_argument _ λ _.
        Ensures-bind KeepsParser IsProfile _ _
          (parse_lines-KeepsParser (lines_of text) _ empty_profile-IsProfile)
          λ q v.
            Ensures-if IsProfile q.seen.title_id _ _ (λ _. Ensures-result IsProfile q.out v)
              (λ _. Ensures-failed IsProfile ErrorCode.invalid_argument))
      h
