-- ===== src/Image/DdsRoundTrip.antt =====
-- image_file.cpp: what `encode_dds` writes, `decode_dds` reads.
use lsfg_nx.Base.{
  ℕ, zero, suc, ◌+◌, ◌-◌, ◌^◌, ◌<◌, ◌≡◌, ◌≢◌, refl, ap, ◌∙◌, arith, false, ◌||◌, List, ◌++◌, ltb,
  ◌==◌, length, take, drop, replicate, take_all,
}
use lsfg_nx.Outcome.{done, ◌>>=◌}
use lsfg_nx.Graph.{format_rgba8}
use lsfg_nx.Dksh.{read_byte, read_u32}
use lsfg_nx.Image.{DumpHeader, Description, describe, pixel_bytes}
use lsfg_nx.Image.Dds.{DdsFields, dds_header, encode_dds, read_fields, check_dds, decode_dds}
use lsfg_nx.Image.RoundTrip.{le32_lem, pass, equal}

replicate_add {ℓ} :
    {A : Type ℓ} (m n : ℕ) (a : A) → replicate (m + n) a ≡ replicate m a ++ replicate n a
replicate_add zero n a = let e : 0 + n ≡ n = omega arith in rw e refl
replicate_add (suc m) n a =
    let e : suc m + n ≡ suc (m + n) = omega arith in rw (e, replicate_add m n a) refl

-- The fields of the header that `encode_dds` writes.
abbrev written : ℕ → ℕ → DdsFields
written width height = record {
  magic = 0x2053_4444;
  size = 124;
  height = height;
  width = width;
  code = 0;
  bits = 32;
  red = 0x0000_00FF;
  green = 0x0000_FF00;
  blue = 0x00FF_0000;
  alpha = 0xFF00_0000;
}

abbrev header_over : DumpHeader → List ℕ → List ℕ
header_over h pixels = take 128 (dds_header h (replicate 128 0 ++ replicate (length pixels) 0))

read_fields-header_over :
    (h : DumpHeader) (pixels : List ℕ)
    → h.width < 2 ^ 32
    → h.height < 2 ^ 32
    → read_fields (header_over h pixels ++ pixels) ≡ done (written h.width h.height)
unfolding read_fields read_u32 read_byte dds_header
read_fields-header_over h pixels w t = rw (le32_lem h.width w, le32_lem h.height t) refl

drop-header_over :
    (h : DumpHeader) (pixels : List ℕ) → drop 128 (header_over h pixels ++ pixels) ≡ pixels
unfolding dds_header
drop-header_over h pixels = refl

length-header_over :
    (h : DumpHeader) (pixels : List ℕ)
    → length (header_over h pixels ++ pixels) ≡ 128 + length pixels
unfolding dds_header
length-header_over h pixels = omega arith

-- The description of what is read.
abbrev pub filled : Description → DumpHeader → Description
filled d h = record d {
  extent = record { width = h.width; height = h.height };
  format = format_rgba8;
}

-- The header is one of an image of at least a pixel, in four bytes a pixel.
pub record IsColour (h : DumpHeader) (pixels : List ℕ) : Type 0 where
  pub format : h.format ≡ format_rgba8
  pub width : h.width < 2 ^ 32
  pub height : h.height < 2 ^ 32
  pub wide : h.width ≢ 0
  pub high : h.height ≢ 0
  pub counted : h.bytes ≡ length pixels
  pub covered :
      pixel_bytes (record { width = h.width; height = h.height }) format_rgba8 ≡ length pixels

neither_zero : (a b : ℕ) → a ≢ 0 → b ≢ 0 → (a == 0 || b == 0) ≡ false
neither_zero a b h k = ground arith

room : (n a w : ℕ) → n ≡ 128 + a → w ≡ a → ltb (n - 128) w ≡ false
room n a w h k = ground arith

longer : (n a : ℕ) → n ≡ 128 + a → ltb n 128 ≡ false
longer n a h = ground arith

check_dds-written :
    (h : DumpHeader) (pixels bytes : List ℕ) (d : Description)
    → IsColour h pixels
    → length bytes ≡ 128 + length pixels
    → drop 128 bytes ≡ pixels
    → check_dds bytes d (written h.width h.height)
      ≡ done (record { header = describe (filled d h) pixels; pixels = pixels })
unfolding check_dds
check_dds-written h pixels bytes d v size payload =
    let wanted = pixel_bytes (record { width = h.width; height = h.height }) format_rgba8 in
    let whole : take wanted (drop 128 bytes) ≡ pixels =
      ap (take wanted) payload ∙ take_all wanted pixels (omega (arith, v.covered)) in
    pass _ _ (neither_zero h.width h.height v.wide v.high)
    ∙ pass _ _ (room (length bytes) (length pixels) wanted size v.covered)
    ∙ ap (λ xs. done (record { header = describe (filled d h) xs; pixels = xs })) whole

-- An image of at least a pixel, in four bytes a pixel and as many as its extent says, is read back
-- from the texture that is written: its extent and its pixels, described as the reader asks.
pub decode_dds-encode_dds :
    (h : DumpHeader) (pixels : List ℕ) (d : Description)
    → IsColour h pixels
    → (encode_dds h pixels >>= λ bytes. decode_dds bytes d)
      ≡ done (record { header = describe (filled d h) pixels; pixels = pixels })
unfolding encode_dds decode_dds
decode_dds-encode_dds h pixels d v =
    let bytes = header_over h pixels ++ pixels in
    let size = length-header_over h pixels in
    ap (λ m. m >>= λ b. decode_dds b d)
      (pass _ _ (equal h.format 0 v.format)
        ∙ pass _ _ (equal h.bytes (length pixels) v.counted)
        ∙ ap (λ out. done (take 128 (dds_header h out) ++ pixels))
            (replicate_add 128 (length pixels) 0))
    ∙ pass _ _ (longer (length bytes) (length pixels) size)
    ∙ ap (λ m. m >>= check_dds bytes d) (read_fields-header_over h pixels v.width v.height)
    ∙ check_dds-written h pixels bytes d v size (drop-header_over h pixels)
