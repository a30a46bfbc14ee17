-- ===== src/Profile/Text.antt =====
-- profile.cpp: spaces, numbers and words. A text is the list of its bytes.
use lsfg_nx.Base.{
  ℕ, ◌+◌, ◌-◌, ◌*◌, ◌%◌, ◌^◌, bit_or, Bool, true, false, ◌&&◌, ◌||◌, List, [], ◌∷◌, Option, none,
  some, ltb, leb, ◌==◌, if◌then◌else◌, length,
}

abbrev pub is_space : ℕ → Bool
is_space c = c == b' ' || c == 9 || c == 13 || c == 12 || c == 11

-- The two loops of `trim`.
unfoldable pub trim_front : List ℕ → List ℕ
trim_front [] = []
trim_front (c ∷ text) = if is_space c then trim_front text else c ∷ text

abbrev keep_back : ℕ → List ℕ → List ℕ
keep_back c [] = if is_space c then [] else c ∷ []
keep_back c (d ∷ rest) = c ∷ d ∷ rest

unfoldable pub trim_back : List ℕ → List ℕ
trim_back [] = []
trim_back (c ∷ text) = keep_back c (trim_back text)

unfoldable pub trim : List ℕ → List ℕ
unfolding trim_front trim_back
trim text = trim_back (trim_front text)

-- Two texts are the same.
abbrev pub same_text : List ℕ → List ℕ → Bool
same_text [] [] = true
same_text [] (d ∷ t) = false
same_text (c ∷ s) [] = false
same_text (c ∷ s) (d ∷ t) = c == d && same_text s t

-- A digit of either base; `none` for another character.
abbrev pub decimal_digit : ℕ → Option ℕ
decimal_digit c = if leb b'0' c && leb c b'9' then some (c - b'0') else none

abbrev pub hex_digit_value : ℕ → Option ℕ
hex_digit_value c =
    if leb b'0' c && leb c b'9'
    then some (c - b'0')
    else if leb b'a' c && leb c b'f'
    then some (c - b'a' + 10)
    else if leb b'A' c && leb c b'F'
    then some (c - b'A' + 10)
    else none

-- The loop of `parse_hex_id`.
unfoldable pub hex_loop : ℕ → List ℕ → Option ℕ
hex_loop value [] = some value
hex_loop value (c ∷ text) = elim (hex_digit_value c) [
  | none ↦ none
  | some digit ↦ hex_loop (bit_or (value * 2 ^ 4 % 2 ^ 64) digit) text
]

unfoldable pub parse_hex_id : List ℕ → Option ℕ
unfolding hex_loop
parse_hex_id text = if length text == 16 then hex_loop 0 text else none

-- The loop of `parse_number`, with the digits of its base.
unfoldable pub number_loop : (ℕ → Option ℕ) → ℕ → ℕ → ℕ → List ℕ → Option ℕ
number_loop digit_value base limit value [] = some value
number_loop digit_value base limit value (c ∷ text) = elim (digit_value c) [
  | none ↦ none
  | some digit ↦
      if ltb limit (value * base + digit)
      then none
      else number_loop digit_value base limit (value * base + digit) text
]

unfoldable pub parse_number : List ℕ → ℕ → Option ℕ
unfolding number_loop
parse_number [] limit = none
parse_number (c ∷ []) limit = number_loop decimal_digit 10 limit 0 (c ∷ [])
parse_number (c ∷ x ∷ []) limit = number_loop decimal_digit 10 limit 0 (c ∷ x ∷ [])
parse_number (c ∷ x ∷ d ∷ text) limit =
    if c == b'0' && (x == b'x' || x == b'X')
    then number_loop hex_digit_value 16 limit 0 (d ∷ text)
    else number_loop decimal_digit 10 limit 0 (c ∷ x ∷ d ∷ text)
