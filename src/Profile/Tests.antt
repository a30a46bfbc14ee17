-- ===== src/Profile/Tests.antt =====
-- The theorems on common/profile at a small profile.
use lsfg_nx.Base.{ℕ, ◌≡◌, ◌≢◌, ◌↔◌, refl, arith, true, List, [], ◌∷◌, ◌++◌, some, length, replicate}
use lsfg_nx.Error.{ErrorCode}
use lsfg_nx.Outcome.{done}
use lsfg_nx.Profile.{Profile, Targeting, codes}
use lsfg_nx.Profile.Text.{trim, parse_hex_id, parse_number}
use lsfg_nx.Profile.Apply.{
  apply_title, apply_name, apply_title_id, apply_supported, has_build, apply_build,
  apply_presentation,
}
use lsfg_nx.Profile.Parse.{
  lines_of, split_at_separator, last_byte, apply_in, parse_entry, parse_line, parse_lines, parse,
}
use lsfg_nx.Profile.Check.{check, format_id}
use lsfg_nx.Profile.Valid.{IsProfile}
use lsfg_nx.Profile.Kept.{parse-IsProfile}
use lsfg_nx.Profile.Allowed.{Allows, parse_hex_id-format_id, check_iff}

abbrev small_text : List ℕ
small_text =
    codes "; a title\n[title]\nname = Game\ntitle_id=0100A3D008C5C000 \nsupported = yes\n"
    ++ codes "[builds]\n1.0 = 00112233aabbccdd\n[presentation]\npresent_interval=0x2\n[more]\nx=y"

abbrev small_profile : Profile
small_profile = record {
  name = codes "Game" ++ replicate 60 0;
  name_size = 4;
  title_id = 0x0100_A3D0_08C5_C000;
  supported = true;
  builds =
      record {
        version = codes "1.0" ++ replicate 13 0;
        version_size = 3;
        build_id = 0x0011_2233_AABB_CCDD;
      }
      ∷ [];
  presentation = record {
    present_interval = 2;
    swapchain_buffers = 0;
    texture_format = 0;
    handheld_width = 0;
    handheld_height = 0;
  };
}

small_text_parsed : parse small_text ≡ done small_profile
unfolding parse parse_lines parse_line parse_entry split_at_separator lines_of last_byte apply_in
    apply_title apply_name apply_title_id apply_supported has_build apply_build apply_presentation
    trim parse_hex_id parse_number
small_text_parsed = refl

parse-IsProfile_example : IsProfile small_profile
parse-IsProfile_example = parse-IsProfile small_text small_profile small_text_parsed

parse_hex_id-format_id_example :
    (parse_hex_id (format_id 0x0100_A3D0_08C5_C000) ≡ some 0x0100_A3D0_08C5_C000)
    × (length (format_id 0x0100_A3D0_08C5_C000) ≡ 16)
parse_hex_id-format_id_example = parse_hex_id-format_id 0x0100_A3D0_08C5_C000 (omega arith)

check_iff_example :
    (check small_profile 0x0100_A3D0_08C5_C000 7 Targeting.strict ≡ ErrorCode.ok) ↔ (
      (small_profile.title_id ≢ 0)
      × (small_profile.title_id ≡ 0x0100_A3D0_08C5_C000)
      × Allows Targeting.strict small_profile.builds 7)
check_iff_example = check_iff small_profile 0x0100_A3D0_08C5_C000 7 Targeting.strict
