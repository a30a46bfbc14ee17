-- ===== src/Image/RoundTrip.antt =====
-- image_file.cpp: what `encode` writes, `decode` reads.
use lsfg_nx.Base.{
  ℕ, ◌+◌, ◌-◌, ◌*◌, ◌/◌, ◌%◌, ◌^◌, ◌≤◌, ◌<◌, ◌≡◌, refl, sym, ap, ◌∙◌, arith, Bool, true, false, not,
  ◌||◌, List, ◌++◌, ltb, ◌==◌, if◌then◌else◌, length, drop, take_prefix, drop_prefix,
  length-overwrite, length-replicate, replicate, min, length-append,
}
use lsfg_nx.Outcome.{done, ◌>>=◌}
use lsfg_nx.Cache.Crc.{crc32}
use lsfg_nx.Dksh.{read_byte, read_u32}
use lsfg_nx.Image.{
  DumpHeader, Description, describe, copy_label, pixel_bytes, dump_magic, dump_version,
}
use lsfg_nx.Image.Codec.{header_bytes, encode, copy_header, check_dump, decode}

-- The numbers of a header fit their fields.
pub record IsHeader (h : DumpHeader) : Type 0 where
  pub magic : h.magic < 2 ^ 32
  pub version : h.version < 2 ^ 32
  pub width : h.width < 2 ^ 32
  pub height : h.height < 2 ^ 32
  pub bytes : h.bytes < 2 ^ 32
  pub crc : h.crc < 2 ^ 32
  pub image : h.image < 2 ^ 32
  pub frame : h.frame < 2 ^ 32
  pub format : h.format < 2 ^ 8
  pub role : h.role < 2 ^ 8
  pub reserved0 : h.reserved0_ < 2 ^ 16
  pub reserved1 : h.reserved1_ < 2 ^ 32
  pub label : length h.label ≡ 32

pub le32_lem :
    (a : ℕ)
    → a < 2 ^ 32
    → a % 256 + a / 2 ^ 8 % 256 * 256 + a / 2 ^ 16 % 256 * 65536 + a / 2 ^ 24 % 256 * 16777216 ≡ a
le32_lem a h = omega arith

byte_lem : (a : ℕ) → a < 2 ^ 8 → a % 256 ≡ a
byte_lem a h = omega arith

le16_lem : (a : ℕ) → a < 2 ^ 16 → a % 256 + a / 2 ^ 8 % 256 * 256 ≡ a
le16_lem a h = omega arith

copy_header-header_bytes :
    (h : DumpHeader) (rest : List ℕ) → IsHeader h → copy_header (header_bytes h ++ rest) ≡ done h
unfolding copy_header read_u32 read_byte
copy_header-header_bytes h rest v =
    rw
      (
        le32_lem h.magic v.magic,
        le32_lem h.version v.version,
        le32_lem h.width v.width,
        le32_lem h.height v.height,
        le32_lem h.bytes v.bytes,
        le32_lem h.crc v.crc,
        le32_lem h.image v.image,
        le32_lem h.frame v.frame,
        le32_lem h.reserved1_ v.reserved1,
      )
      (rw
        (
          byte_lem h.format v.format,
          byte_lem h.role v.role,
          le16_lem h.reserved0_ v.reserved0,
          take_prefix 32 h.label rest v.label,
        )
        refl)

-- The header is one of this version, and says what the pixels are.
pub record Describes (h : DumpHeader) (pixels : List ℕ) : Type 0 where
  pub fits : IsHeader h
  pub magic : h.magic ≡ dump_magic
  pub version : h.version ≡ dump_version
  pub format : h.format ≤ 2
  pub role : h.role ≤ 3
  pub covered : pixel_bytes (record { width = h.width; height = h.height }) h.format ≡ h.bytes
  pub counted : h.bytes ≡ length pixels
  pub summed : crc32 pixels 0 ≡ h.crc

length-header_bytes :
    (h : DumpHeader) (rest : List ℕ)
    → length h.label ≡ 32
    → length (header_bytes h ++ rest) ≡ 72 + length rest
length-header_bytes h rest e = omega (arith, e, length-append h.label rest)

drop-header_bytes :
    (h : DumpHeader) (rest : List ℕ) → length h.label ≡ 32 → drop 72 (header_bytes h ++ rest) ≡ rest
drop-header_bytes h rest e = drop_prefix 32 h.label rest e

-- A refusal that does not happen.
pub pass {ℓ} : {A : Type ℓ} {b : Bool} (x y : A) → b ≡ false → (if b then x else y) ≡ y
pass {b = true} x y h = cc
pass {b = false} x y h = refl

pub equal : (a b : ℕ) → a ≡ b → not (a == b) ≡ false
equal a b h = ground arith

in_range : (a b : ℕ) → a ≤ 2 → b ≤ 3 → (ltb 2 a || ltb 3 b) ≡ false
in_range a b h k = ground arith

pub long : (n a : ℕ) → n ≡ 72 + a → ltb n 72 ≡ false
long n a h = ground arith

check_dump-header_bytes :
    (h : DumpHeader) (pixels bytes : List ℕ)
    → Describes h pixels
    → length bytes ≡ 72 + length pixels
    → drop 72 bytes ≡ pixels
    → check_dump bytes h ≡ done (record { header = h; pixels = pixels })
unfolding check_dump
check_dump-header_bytes h pixels bytes v size payload =
    pass _ _ (equal _ _ v.magic)
    ∙ pass _ _ (equal _ _ v.version)
    ∙ pass _ _ (in_range h.format h.role v.format v.role)
    ∙ pass _ _ (equal _ _ v.covered)
    ∙ pass _ _ (equal (length bytes - 72) h.bytes (omega (arith, size, v.counted)))
    ∙ pass _ _ (equal _ _ (ap (λ xs. crc32 xs 0) payload ∙ v.summed))
    ∙ ap (λ xs. done (record { header = h; pixels = xs })) payload

-- What is encoded is decoded.
decode-encode :
    (h : DumpHeader) (pixels : List ℕ)
    → Describes h pixels
    → (encode h pixels >>= decode) ≡ done (record { header = h; pixels = pixels })
unfolding encode decode
decode-encode h pixels v =
    let bytes = header_bytes h ++ pixels in
    let size = length-header_bytes h pixels v.fits.label in
    let payload = drop-header_bytes h pixels v.fits.label in
    ap (λ m. m >>= decode) (pass _ _ (equal h.bytes (length pixels) v.counted))
    ∙ pass _ _ (long (length bytes) (length pixels) size)
    ∙ ap (λ m. m >>= check_dump bytes) (copy_header-header_bytes h pixels v.fits)
    ∙ check_dump-header_bytes h pixels bytes v size payload

-- A description that the pixels agree with.
pub record IsDescription (d : Description) (pixels : List ℕ) : Type 0 where
  pub width : d.extent.width < 2 ^ 32
  pub height : d.extent.height < 2 ^ 32
  pub image : d.image < 2 ^ 32
  pub frame : d.frame < 2 ^ 32
  pub format : d.format ≤ 2
  pub role : d.role ≤ 3
  pub covered : pixel_bytes d.extent d.format ≡ length pixels
  pub small : length pixels < 2 ^ 32

crc32_bound : (pixels : List ℕ) → crc32 pixels 0 < 2 ^ 32
unfolding crc32
crc32_bound pixels = omega arith

length-copy_label : (label : List ℕ) → length (copy_label label (replicate 32 0)) ≡ 32
length-copy_label label =
    length-overwrite (min (length label) 31) label (replicate 32 0) (omega arith)
      (omega (arith, length-replicate {A = ℕ} 32 0))
    ∙ length-replicate {A = ℕ} 32 0

describe-IsHeader :
    (d : Description) (pixels : List ℕ) → IsDescription d pixels → IsHeader (describe d pixels)
unfolding describe
describe-IsHeader d pixels v = record {
  magic = omega arith;
  version = omega arith;
  width = v.width;
  height = v.height;
  bytes = omega arith;
  crc = crc32_bound pixels;
  image = v.image;
  frame = v.frame;
  format = omega arith;
  role = omega arith;
  reserved0 = omega arith;
  reserved1 = omega arith;
  label = length-copy_label d.label;
}

describe-Describes :
    (d : Description) (pixels : List ℕ)
    → IsDescription d pixels
    → Describes (describe d pixels) pixels
unfolding describe
describe-Describes d pixels v =
    let format : d.format % 2 ^ 8 ≡ d.format = omega (arith, v.format) in
    let count : length pixels % 2 ^ 32 ≡ length pixels = omega (arith, v.small) in
    record {
      fits = describe-IsHeader d pixels v;
      magic = refl;
      version = refl;
      format = omega (arith, v.format);
      role = omega (arith, v.role);
      covered = ap (pixel_bytes d.extent) format ∙ v.covered ∙ sym count;
      counted = count;
      summed = refl;
    }

-- An image whose pixels are as many as its extent and its format say, fewer than 2 ^ 32 bytes, is read
-- back from its file: the header that describes it, and the pixels.
pub decode-encode-describe :
    (d : Description) (pixels : List ℕ)
    → IsDescription d pixels
    → (encode (describe d pixels) pixels >>= decode)
      ≡ done (record { header = describe d pixels; pixels = pixels })
decode-encode-describe d pixels v =
    decode-encode (describe d pixels) pixels (describe-Describes d pixels v)
