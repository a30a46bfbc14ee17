-- ===== src/Profile/Check.antt =====
-- profile.cpp: `check`, and the identifiers and paths that are written.
use lsfg_nx.Base.{
  ℕ, zero, suc, ◌+◌, ◌-◌, ◌*◌, ◌/◌, ◌^◌, bit_and, not, ◌||◌, List, [], ◌∷◌, ◌++◌, Option, none,
  some, ltb, ◌==◌, if◌then◌else◌, length,
}
use lsfg_nx.Error.{ErrorCode}
use lsfg_nx.Profile.{BuildEntry, Profile, Targeting, codes}

unfoldable pub find_build : List BuildEntry → ℕ → Option BuildEntry
find_build [] build_id = none
find_build (entry ∷ entries) build_id =
    if entry.build_id == build_id then some entry else find_build entries build_id

unfoldable pub check_build : Targeting → Profile → ℕ → ErrorCode
check_build Targeting.strict profile build_id = elim (find_build profile.builds build_id) [
  | none ↦ ErrorCode.build_not_allowed
  | some entry ↦ ErrorCode.ok
]
check_build Targeting.permissive profile build_id = ErrorCode.ok

unfoldable pub check : Profile → ℕ → ℕ → Targeting → ErrorCode
check profile title_id build_id targeting =
    if profile.title_id == 0 || not (profile.title_id == title_id)
    then ErrorCode.title_not_allowed
    else check_build targeting profile build_id

-- A digit of `format_id`.
abbrev pub upper_digit : ℕ → ℕ
upper_digit n = if ltb n 10 then b'0' + n else b'A' + n - 10

-- The loop of `format_id`: so many digits, the last of which are the lowest.
unfoldable pub format_digits : ℕ → ℕ → List ℕ
format_digits zero value = []
format_digits (suc count) value =
    upper_digit (bit_and (value / 2 ^ (4 * count)) 0xF) ∷ format_digits count value

-- The text of `format_id`, without the zero at its end.
unfoldable pub format_id : ℕ → List ℕ
unfolding format_digits
format_id value = format_digits 16 value

-- `path_for`, without the zero at its end; `none` where it does not fit into 128 bytes.
unfoldable pub path_for : List ℕ → ℕ → Option (List ℕ)
path_for root title_id =
    let leaf = codes "/profile.ini" in
    let size = length root + 1 + 16 + length leaf in
    if ltb 128 (size + 1) then none else some (root ++ (b'/' ∷ (format_id title_id ++ leaf)))
