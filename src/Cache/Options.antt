-- ===== src/Cache/Options.antt =====
-- cache_format.cpp: the flags in a header's options, and the word of `pack_options`.
use lsfg_nx.Base.{
  ℕ, ◌+◌, ◌*◌, ◌/◌, ◌%◌, ◌^◌, ◌<◌, ◌≡◌, bit_and, bit_or, arith, refl, Bool, true, false, not,
  if◌then◌else◌, ◌==◌,
}
use lsfg_nx.Base.Bits.{
  bit_and_step, bit_or_step, bit_and-one, bit_and-clear_low, bit_or-high, bit_or-low, bit_or-zero,
  bit_and-mask5, bit_and-mask8,
}
use lsfg_nx.Graph.{Graph, Config}
use lsfg_nx.Cache.{ManifestHeader, Precision}
use lsfg_nx.Cache.Manifest.{describe, configuration, describe_options}

abbrev pub is_low : Precision → Bool
is_low Precision.low = true
is_low Precision.high = false

-- One option of a configuration that is on or off.
abbrev pub bit_of : Bool → ℕ → ℕ
bit_of b n = if b then n else 0

-- `pack_options`: a shift of a masked field stays within 32 bits.
unfoldable pub pack_options : Precision → Config → ℕ
pack_options precision config =
    let word = bit_or 0 (bit_of config.performance 1) in
    let word = bit_or word (bit_of config.hdr (1 * 2 ^ 1)) in
    let word = bit_or word (bit_of (is_low precision) (1 * 2 ^ 2)) in
    let word = bit_or word (bit_and config.generated_frames 0x1F * 2 ^ 3) in
    let word = bit_or word (bit_and config.flow_numerator 0xFF * 2 ^ 8) in
    bit_or word (bit_and config.flow_denominator 0xFF * 2 ^ 16)

-- Three flags are in the low bits.
abbrev pub flags_of : Bool → Bool → Bool → ℕ
flags_of a b c = bit_of a 1 + bit_of b 2 + bit_of c 4

flags_word :
    (a b c : Bool)
    → bit_or (bit_or (bit_or 0 (bit_of a 1)) (bit_of b 2)) (bit_of c 4) ≡ flags_of a b c
flags_word true true true = refl
flags_word true true false = refl
flags_word true false true = refl
flags_word true false false = refl
flags_word false true true = refl
flags_word false true false = refl
flags_word false false true = refl
flags_word false false false = refl

flags_below : (a b c : Bool) → flags_of a b c < 8
flags_below a b c = ground arith

-- The fields of the word lie side by side.
pub pack_options_lem :
    (precision : Precision) (config : Config)
    → pack_options precision config
      ≡ flags_of config.performance config.hdr (is_low precision)
        + config.generated_frames % 32 * 2 ^ 3
        + config.flow_numerator % 256 * 2 ^ 8
        + config.flow_denominator % 256 * 2 ^ 16
unfolding pack_options
pack_options_lem precision config =
    let w = flags_of config.performance config.hdr (is_low precision) in
    let small = flags_below config.performance config.hdr (is_low precision) in
    let f = config.generated_frames % 32 in
    let n = config.flow_numerator % 256 in
    let d = config.flow_denominator % 256 in
    let a : bit_or w (f * 2 ^ 3) ≡ w + f * 2 ^ 3 = bit_or-high 3 w f small in
    let b : bit_or (w + f * 2 ^ 3) (n * 2 ^ 8) ≡ w + f * 2 ^ 3 + n * 2 ^ 8 =
      bit_or-high 8 (w + f * 2 ^ 3) n (omega (arith, small)) in
    let c : bit_or (w + f * 2 ^ 3 + n * 2 ^ 8) (d * 2 ^ 16)
        ≡ w + f * 2 ^ 3 + n * 2 ^ 8 + d * 2 ^ 16 =
      bit_or-high 16 (w + f * 2 ^ 3 + n * 2 ^ 8) d (omega (arith, small)) in
    rw
      (
        flags_word config.performance config.hdr (is_low precision),
        bit_and-mask5 config.generated_frames,
        bit_and-mask8 config.flow_numerator,
        bit_and-mask8 config.flow_denominator,
        a,
        b,
        c,
      )
      refl

-- A configuration whose numbers fit their fields.
pub record Packable (config : Config) : Type 0 where
  pub generated_frames : config.generated_frames < 32
  pub flow_numerator : config.flow_numerator < 256
  pub flow_denominator : config.flow_denominator < 256

flags-injective :
    (a b c a' b' c' : Bool) → flags_of a b c ≡ flags_of a' b' c' → (a ≡ a') × (b ≡ b') × (c ≡ c')
flags-injective a b c a' b' c' h = ground arith

is_low-injective : (p q : Precision) → is_low p ≡ is_low q → p ≡ q
is_low-injective Precision.low Precision.low h = refl
is_low-injective Precision.low Precision.high h = cc
is_low-injective Precision.high Precision.low h = cc
is_low-injective Precision.high Precision.high h = refl

-- Two requests whose configurations fit the fields have the same option word only if they are the
-- same: in their precision and in all that a configuration says.
pub pack_options-injective :
    (p q : Precision) (c d : Config)
    → Packable c
    → Packable d
    → pack_options p c ≡ pack_options q d
    → (p ≡ q) × (c ≡ d)
pack_options-injective p q c d a b h =
    let low = flags_below c.performance c.hdr (is_low p) in
    let low' = flags_below d.performance d.hdr (is_low q) in
    let x = pack_options_lem p c in
    let y = pack_options_lem q d in
    let f = a.generated_frames in
    let g = b.generated_frames in
    let i = a.flow_numerator in
    let j = b.flow_numerator in
    let k = a.flow_denominator in
    let l = b.flow_denominator in
    let (r, s, t) =
      flags-injective c.performance c.hdr (is_low p) d.performance d.hdr (is_low q) (omega arith) in
    let frames : c.generated_frames ≡ d.generated_frames = omega arith in
    let numerator : c.flow_numerator ≡ d.flow_numerator = omega arith in
    let denominator : c.flow_denominator ≡ d.flow_denominator = omega arith in
    (is_low-injective p q t, cc)

-- The flags of a configuration join the options that are cleared of them.
describe_options_lem :
    (options : ℕ) (config : Config)
    → options < 2 ^ 32
    → describe_options options config
      ≡ options / 4 * 4 + bit_of config.performance 1 + bit_of config.hdr 2
describe_options_lem options config h =
    let cleared : bit_and options 0xFFFF_FFFC ≡ options / 4 * 4 =
      bit_and-clear_low 2 32 options (omega arith) h in
    let n = options / 4 in
    let one : bit_or (n * 4) (bit_of config.performance 1) ≡ n * 4 + bit_of config.performance 1 =
      bit_or-low 2 n (bit_of config.performance 1) (ground arith) in
    rw (cleared, one) (second n config.performance config.hdr)
  where
    second :
        (n : ℕ) (a b : Bool)
        → bit_or (n * 4 + bit_of a 1) (bit_of b 2) ≡ n * 4 + bit_of a 1 + bit_of b 2
    second n a false = omega (arith, bit_or-zero (n * 4 + bit_of a 1))
    second n false true =
        let e : n * 4 + 0 ≡ n * 4 = omega arith in rw e (bit_or-low 2 n 2 (omega arith))
    second n true true =
        let half : (n * 4 + 1) / 2 ≡ n * 2 = omega arith in
        let deep : bit_or ((n * 4 + 1) / 2) 1 ≡ n * 2 + 1 =
          rw half (bit_or-low 1 n 1 (omega arith)) in
        omega (arith, bit_or_step (n * 4 + 1) 2, deep)

bit_and-two : (a : ℕ) → bit_and a 2 ≡ a / 2 % 2 * 2
bit_and-two a = omega (arith, bit_and_step a 2, bit_and-one (a / 2))

-- A header that describes a graph has the graph's configuration, and the options apart from the two
-- flags that it had before.
pub configuration-describe :
    (header : ManifestHeader) (g : Graph)
    → header.options < 2 ^ 32
    → (configuration (describe header g) ≡ g.config)
      × ((describe header g).options / 4 ≡ header.options / 4)
unfolding configuration describe
configuration-describe header g h =
    let e = describe_options_lem header.options g.config h in
    let word = describe_options header.options g.config in
    let performance : not (bit_and word 1 == 0) ≡ g.config.performance =
      ground (arith, e, bit_and-one word) in
    let hdr : not (bit_and word 2 == 0) ≡ g.config.hdr = ground (arith, e, bit_and-two word) in
    (rw (performance, hdr) refl, ground (arith, e))
