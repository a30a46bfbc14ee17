-- ===== src/Profile/Numbers.antt =====
-- profile.cpp: the numbers that are read, and the identifiers that are written.
use lsfg_nx.Base.{
  ℕ, ◌+◌, ◌*◌, ◌%◌, ◌^◌, ◌≤◌, ◌<◌, ◌≡◌, bit_or, arith, Bool-cases, Option-cases, inl, inr, List, [],
  ◌∷◌, Option, some, ltb, ◌==◌, length,
}
use lsfg_nx.Base.Bits.{bit_or-low}
use lsfg_nx.Profile.Text.{
  decimal_digit, hex_digit_value, hex_loop, parse_hex_id, number_loop, parse_number,
}

hex_digit_value_bound : (c d : ℕ) → hex_digit_value c ≡ some d → d < 16
hex_digit_value_bound c d h = ground (arith, h)

-- One more digit.
abbrev pub shifted : ℕ → ℕ → ℕ
shifted value digit = bit_or (value * 2 ^ 4 % 2 ^ 64) digit

pub shifted_lem : (value digit : ℕ) → digit < 16 → shifted value digit ≡ value * 16 % 2 ^ 64 + digit
shifted_lem value digit h =
    let e : value * 2 ^ 4 % 2 ^ 64 ≡ value % 2 ^ 60 * 2 ^ 4 = omega arith in
    rw e (omega (arith, bit_or-low 4 (value % 2 ^ 60) digit (omega (arith, h))))

hex_loop_bound :
    (text : List ℕ) (value id : ℕ) → value < 2 ^ 64 → hex_loop value text ≡ some id → id < 2 ^ 64
unfolding hex_loop
hex_loop_bound [] value id l h = ground (arith, h)
hex_loop_bound (c ∷ text) value id l h = elim (Option-cases (hex_digit_value c)) [
  | inl wrong ↦ absurd (ground (arith, h, wrong))
  | inr right ↦
      let (d, e) = right in
      let small = hex_digit_value_bound c d e in
      hex_loop_bound text (shifted value d) id (omega (arith, shifted_lem value d small, small))
        (rw (e, hex_loop) at h)
]

pub parse_hex_id_bound : (text : List ℕ) (id : ℕ) → parse_hex_id text ≡ some id → id < 2 ^ 64
unfolding parse_hex_id
parse_hex_id_bound text id h = elim (Bool-cases (length text == 16)) [
  | inl e ↦ hex_loop_bound text 0 id (omega arith) (rw e at h)
  | inr e ↦ absurd (ground (arith, h, e))
]

number_loop_bound :
    (digit_value : ℕ → Option ℕ) (base limit : ℕ) (text : List ℕ) (value n : ℕ)
    → value ≤ limit
    → number_loop digit_value base limit value text ≡ some n
    → n ≤ limit
unfolding number_loop
number_loop_bound digit_value base limit [] value n l h = ground (arith, h)
number_loop_bound digit_value base limit (c ∷ text) value n l h =
    elim (Option-cases (digit_value c)) [
      | inl wrong ↦ absurd (ground (arith, h, wrong))
      | inr right ↦
          let (d, e) = right in
          elim (Bool-cases (ltb limit (value * base + d))) [
            | inl over ↦ absurd (ground (arith, h, e, over))
            | inr within ↦
                number_loop_bound digit_value base limit text (value * base + d) n
                  (ground (arith, within)) (rw (e, within, number_loop) at h)
          ]
    ]

pub parse_number_bound :
    (text : List ℕ) (limit n : ℕ) → parse_number text limit ≡ some n → n ≤ limit
unfolding parse_number
parse_number_bound [] limit n h = absurd (ground (arith, h))
parse_number_bound (c ∷ []) limit n h =
    number_loop_bound decimal_digit 10 limit (c ∷ []) 0 n (omega arith) h
parse_number_bound (c ∷ x ∷ []) limit n h =
    number_loop_bound decimal_digit 10 limit (c ∷ x ∷ []) 0 n (omega arith) h
parse_number_bound (c ∷ x ∷ d ∷ text) limit n h = ground (
  arith,
  number_loop_bound hex_digit_value 16 limit (d ∷ text) 0 n (omega arith),
  number_loop_bound decimal_digit 10 limit (c ∷ x ∷ d ∷ text) 0 n (omega arith),
)
