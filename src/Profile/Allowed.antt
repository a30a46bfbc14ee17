-- ===== src/Profile/Allowed.antt =====
-- profile.cpp: identifiers that are written and read back, and the titles that `check` allows.
use mathlib.Core.Option.{some-injective}
use native.Mathlib.Nat.{pow-suc, div-le_self, div-div-eq-div-mul}
use lsfg_nx.Base.{
  ℕ, zero, suc, ◌*◌, ◌/◌, ◌%◌, ◌^◌, ◌≤◌, ◌<◌, ◌≡◌, ◌≢◌, ◌↔◌, bit_and, arith, refl, sym, ap, ◌∙◌,
  Bool-cases, Option-cases, inl, inr, List, [], ◌∷◌, none, some, ◌==◌, ==_iff, not, ◌||◌, length,
  get_elem?,
}
use lsfg_nx.Base.Bits.{bit_and_step, bit_and-one}
use lsfg_nx.Error.{ErrorCode}
use lsfg_nx.Profile.Text.{hex_digit_value, hex_loop, parse_hex_id}
use lsfg_nx.Profile.Numbers.{shifted, shifted_lem}
use lsfg_nx.Profile.{BuildEntry, Profile, Targeting}
use lsfg_nx.Profile.Check.{find_build, check_build, check, upper_digit, format_digits, format_id}

hex_digit_value-upper_digit : (d : ℕ) → d < 16 → hex_digit_value (upper_digit d) ≡ some d
hex_digit_value-upper_digit d h = ground arith

bit_and-mask4 : (a : ℕ) → bit_and a 0xF ≡ a % 16
bit_and-mask4 a = omega (
  arith,
  bit_and_step a 15,
  bit_and_step (a / 2) 7,
  bit_and_step (a / 2 / 2) 3,
  bit_and-one (a / 2 / 2 / 2),
)

length-format_digits : (n value : ℕ) → length (format_digits n value) ≡ n
unfolding format_digits hex_loop
length-format_digits zero value = refl
length-format_digits (suc n) value = ap suc (length-format_digits n value)

-- Dividing by one power of 16 more.
hex_quotient : (n value : ℕ) → value / 2 ^ (4 * suc n) ≡ value / 2 ^ (4 * n) / 16
hex_quotient n value =
    let k = 4 * n in
    let e : 4 * suc n ≡ suc (suc (suc (suc k))) = omega arith in
    let p : 2 ^ suc (suc (suc (suc k))) ≡ 2 ^ k * 16 = omega (
      arith,
      pow-suc 2 k,
      pow-suc 2 (suc k),
      pow-suc 2 (suc (suc k)),
      pow-suc 2 (suc (suc (suc k))),
    ) in
    ap (λ m. value / 2 ^ m) e ∙ ap (λ m. value / m) p ∙ sym (div-div-eq-div-mul value (2 ^ k) 16)

hex_loop_digit :
    (value c digit : ℕ) (text : List ℕ)
    → hex_digit_value c ≡ some digit
    → hex_loop value (c ∷ text) ≡ hex_loop (shifted value digit) text
unfolding hex_loop
hex_loop_digit value c digit text h = rw (h, hex_loop) refl

-- The digits below, read after the value of those above.
hex_loop-format_digits :
    (n value : ℕ)
    → value < 2 ^ 64
    → hex_loop (value / 2 ^ (4 * n)) (format_digits n value) ≡ some value
unfolding format_digits hex_loop
hex_loop-format_digits zero value h = let e : value / 1 ≡ value = omega arith in ap some e
hex_loop-format_digits (suc n) value h =
    let q = value / 2 ^ (4 * n) in
    let low : q ≤ value = div-le_self value (2 ^ (4 * n)) in
    let digit : bit_and q 0xF ≡ q % 16 = bit_and-mask4 q in
    let small : q % 16 < 16 = omega arith in
    let whole : shifted (q / 16) (q % 16) ≡ q =
      shifted_lem (q / 16) (q % 16) small ∙ omega (arith, low, h) in
    let read : hex_digit_value (upper_digit (bit_and q 0xF)) ≡ some (q % 16) =
      ap (λ d. hex_digit_value (upper_digit d)) digit
      ∙ hex_digit_value-upper_digit (q % 16) small in
    let rest = format_digits n value in
    ap (λ x. hex_loop x (upper_digit (bit_and q 0xF) ∷ rest)) (hex_quotient n value)
    ∙ hex_loop_digit (q / 16) (upper_digit (bit_and q 0xF)) (q % 16) rest read
    ∙ ap (λ x. hex_loop x rest) whole
    ∙ hex_loop-format_digits n value h

parse_hex_id_lem : (text : List ℕ) → length text ≡ 16 → parse_hex_id text ≡ hex_loop 0 text
unfolding parse_hex_id
parse_hex_id_lem text h = let t = (==_iff (length text) 16).1 h in rw t refl

format_id_lem : (id : ℕ) → format_id id ≡ format_digits 16 id
unfolding format_id
format_id_lem id = refl

-- An identifier that is written is read back, and it takes sixteen characters.
pub parse_hex_id-format_id :
    (id : ℕ) → id < 2 ^ 64 → (parse_hex_id (format_id id) ≡ some id) × (length (format_id id) ≡ 16)
parse_hex_id-format_id id h =
    let digits = format_digits 16 id in
    let size = length-format_digits 16 id in
    let e : id / 2 ^ (4 * 16) ≡ 0 = omega (arith, h) in
    (
      ap parse_hex_id (format_id_lem id)
          ∙ parse_hex_id_lem digits size
          ∙ ap (λ q. hex_loop q digits) (sym e)
          ∙ hex_loop-format_digits 16 id h,
      ap (λ xs. length xs) (format_id_lem id) ∙ size,
    )

-- What a targeting asks of the builds.
abbrev pub Allows : Targeting → List BuildEntry → ℕ → Type 0
Allows Targeting.strict builds build_id =
    (i : ℕ) × (entry : BuildEntry) × (get_elem? builds i ≡ some entry) × (entry.build_id ≡ build_id)
Allows Targeting.permissive builds build_id = Unit

find_build_holds :
    (builds : List BuildEntry) (build_id : ℕ) (entry : BuildEntry)
    → find_build builds build_id ≡ some entry
    → Allows Targeting.strict builds build_id
unfolding find_build
find_build_holds [] build_id entry h = absurd (ground (arith, h))
find_build_holds (e ∷ es) build_id entry h = elim (Bool-cases (e.build_id == build_id)) [
  | inl here ↦ (0, e, refl, (==_iff e.build_id build_id).0 here)
  | inr further ↦
      let (i, f, at, same) = find_build_holds es build_id entry (ground (arith, h, further)) in
      (suc i, f, at, same)
]

find_build_found :
    (builds : List BuildEntry) (build_id i : ℕ) (entry : BuildEntry)
    → get_elem? builds i ≡ some entry
    → entry.build_id ≡ build_id
    → find_build builds build_id ≢ none
unfolding find_build
find_build_found [] build_id i entry h same absent = cc
find_build_found (e ∷ es) build_id zero entry h same absent =
    let t =
      (==_iff e.build_id build_id).1 (ap (λ x. x.build_id) (some-injective e entry h) ∙ same) in
    ground (arith, absent, t)
find_build_found (e ∷ es) build_id (suc i) entry h same absent =
    elim (Bool-cases (e.build_id == build_id)) [
      | inl here ↦ ground (arith, absent, here)
      | inr further ↦ find_build_found es build_id i entry h same (ground (arith, absent, further))
    ]

check_build_iff :
    (targeting : Targeting) (p : Profile) (build_id : ℕ)
    → (check_build targeting p build_id ≡ ErrorCode.ok) ↔ Allows targeting p.builds build_id
unfolding check_build
check_build_iff Targeting.strict p build_id = elim (Option-cases (find_build p.builds build_id)) [
  | inl absent ↦ (
    λ h. absurd (ground (arith, h, absent)),
    λ (i, entry, at, same). absurd (find_build_found p.builds build_id i entry at same absent),
  )
  | inr found ↦
      let (entry, e) = found in
      (λ h. find_build_holds p.builds build_id entry e, λ k. rw (e, check_build) refl)
]
check_build_iff Targeting.permissive p build_id = (λ h. tt, λ k. refl)

-- `check` allows a title that is recorded under its own identifier, other than 0, and, where it is
-- strict, only in a build that the record lists.
pub check_iff :
    (p : Profile) (title_id build_id : ℕ) (targeting : Targeting)
    → (check p title_id build_id targeting ≡ ErrorCode.ok)
      ↔ ((p.title_id ≢ 0) × (p.title_id ≡ title_id) × Allows targeting p.builds build_id)
unfolding check
check_iff p title_id build_id targeting =
    let builds = check_build_iff targeting p build_id in
    elim (Bool-cases (p.title_id == 0 || not (p.title_id == title_id))) [
      | inl wrong ↦ (
        λ h. absurd (ground (arith, h, wrong)),
        λ (a, b, c). absurd (ground (arith, wrong, a, b)),
      )
      | inr right ↦ (
        λ h. (ground (arith, right), ground (arith, right), builds.0 (ground (arith, h, right))),
        λ (a, b, c). rw right (builds.1 c),
      )
    ]
