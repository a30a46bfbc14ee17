-- ===== src/Image/Dds.antt =====
-- image_file.cpp: `encode_dds` and `decode_dds`.
use lsfg_nx.Base.{
  ℕ, ◌+◌, ◌-◌, ◌*◌, ◌/◌, ◌%◌, ◌^◌, not, ◌||◌, List, ◌++◌, ltb, ◌==◌, if◌then◌else◌, length, take,
  drop, set, replicate,
}
use lsfg_nx.Error.{ErrorCode}
use lsfg_nx.Outcome.{Outcome, done, failed, ◌>>=◌}
use lsfg_nx.Graph.{format_rgba8}
use lsfg_nx.Graph.Extent.{Extent}
use lsfg_nx.Dksh.{read_u32}
use lsfg_nx.Image.{DumpHeader, Dump, Description, describe, pixel_bytes}

abbrev pub dds_header_bytes : ℕ
dds_header_bytes = 128

-- Every call of `write_u32` lies in the header, which is there.
abbrev pub write_u32 : ℕ → ℕ → List ℕ → List ℕ
write_u32 offset value out =
    set
      (set (set (set out offset (value % 256)) (offset + 1) (value / 2 ^ 8 % 256)) (offset + 2)
        (value / 2 ^ 16 % 256))
      (offset + 3) (value / 2 ^ 24 % 256)

-- The header of `encode_dds`, written over zeros.
unfoldable pub dds_header : DumpHeader → List ℕ → List ℕ
dds_header header out =
    let named = write_u32 4 124 (write_u32 0 0x2053_4444 out) in
    let sized =
      write_u32 20 (header.width * 4 % 2 ^ 32)
        (write_u32 16 header.width (write_u32 12 header.height (write_u32 8 0x0000_100F named))) in
    let formatted = write_u32 88 32 (write_u32 80 0x0000_0041 (write_u32 76 32 sized)) in
    let masked =
      write_u32 104 0xFF00_0000 (
        write_u32 100 0x00FF_0000
          (write_u32 96 0x0000_FF00 (write_u32 92 0x0000_00FF formatted))) in
    write_u32 108 0x0000_1000 masked

unfoldable pub encode_dds : DumpHeader → List ℕ → Outcome (List ℕ)
encode_dds header pixels =
    if not (header.format == format_rgba8)
    then failed ErrorCode.unsupported
    else if not (header.bytes == length pixels)
    then failed ErrorCode.invalid_argument
    else done (
        take dds_header_bytes (dds_header header (replicate (dds_header_bytes + length pixels) 0))
        ++ pixels)

-- What `decode_dds` reads of a header.
pub record DdsFields : Type 0 where
  pub magic : ℕ
  pub size : ℕ
  pub height : ℕ
  pub width : ℕ
  pub code : ℕ
  pub bits : ℕ
  pub red : ℕ
  pub green : ℕ
  pub blue : ℕ
  pub alpha : ℕ

-- The reads of its fields; each lies in the header.
unfoldable pub read_fields : List ℕ → Outcome DdsFields
read_fields bytes = read_u32 bytes 0 >>= λ magic. read_u32 bytes 4 >>= λ size.
    read_u32 bytes 84 >>= λ code. read_u32 bytes 88 >>= λ bits. read_u32 bytes 92 >>= λ red.
    read_u32 bytes 96 >>= λ green. read_u32 bytes 100 >>= λ blue. read_u32 bytes 104 >>= λ alpha.
    read_u32 bytes 16 >>= λ width. read_u32 bytes 12 >>= λ height. done (record {
      magic = magic;
      size = size;
      height = height;
      width = width;
      code = code;
      bits = bits;
      red = red;
      green = green;
      blue = blue;
      alpha = alpha;
    })

unfoldable pub check_dds : List ℕ → Description → DdsFields → Outcome Dump
check_dds bytes description f =
    let extent : Extent = record { width = f.width; height = f.height } in
    let wanted = pixel_bytes extent format_rgba8 in
    let payload = take wanted (drop dds_header_bytes bytes) in
    if not (f.magic == 0x2053_4444) || not (f.size == 124)
    then failed ErrorCode.cache_integrity_failure
    else if not (f.code == 0)
        || not (f.bits == 32)
        || not (f.red == 0x0000_00FF)
        || not (f.green == 0x0000_FF00)
        || not (f.blue == 0x00FF_0000)
        || not (f.alpha == 0xFF00_0000)
    then failed ErrorCode.unsupported
    else if f.width == 0 || f.height == 0
    then failed ErrorCode.cache_integrity_failure
    else if ltb (length bytes - dds_header_bytes) wanted
    then failed ErrorCode.cache_integrity_failure
    else done (record {
      header = describe (record description { extent = extent; format = format_rgba8 }) payload;
      pixels = payload;
    })

unfoldable pub decode_dds : List ℕ → Description → Outcome Dump
decode_dds bytes description =
    if ltb (length bytes) dds_header_bytes
    then failed ErrorCode.cache_integrity_failure
    else read_fields bytes >>= check_dds bytes description
