-- ===== src/Image.antt =====
-- common/image-file, image_file.hpp and image_file.cpp: one image in a file, and what its header says of
-- it. A byte is a number below 256; an enumerator in a header is a number.
pub mod Codec
pub mod Dds
pub mod RoundTrip
pub mod DdsRoundTrip
mod Tests
use lsfg_nx.Base.{
  ℕ, ◌*◌, ◌%◌, ◌^◌, ◌-◌, min, List, [], ◌∷◌, ◌++◌, ◌==◌, if◌then◌else◌, length, take, drop,
  replicate,
}
use lsfg_nx.Graph.Extent.{Extent, bytes_per_pixel}
use lsfg_nx.Cache.Crc.{crc32}

abbrev pub dump_magic : ℕ
dump_magic = 0x4449_534C

abbrev pub dump_version : ℕ
dump_version = 1

abbrev pub unknown_index : ℕ
unknown_index = 0xFFFF_FFFF

abbrev pub label_capacity : ℕ
label_capacity = 32

-- `sizeof(DumpHeader)`.
abbrev pub dump_header_size : ℕ
dump_header_size = 72

pub record DumpHeader : Type 0 where
  pub magic : ℕ
  pub version : ℕ
  pub width : ℕ
  pub height : ℕ
  pub bytes : ℕ
  pub crc : ℕ
  pub image : ℕ
  pub frame : ℕ
  pub format : ℕ
  pub role : ℕ
  pub reserved0_ : ℕ
  pub reserved1_ : ℕ
  pub label : List ℕ

-- `DumpHeader{}`.
abbrev pub empty_header : DumpHeader
empty_header = record {
  magic = dump_magic;
  version = dump_version;
  width = 0;
  height = 0;
  bytes = 0;
  crc = 0;
  image = unknown_index;
  frame = unknown_index;
  format = 0;
  role = 0;
  reserved0_ = 0;
  reserved1_ = 0;
  label = replicate label_capacity 0;
}

pub record Dump : Type 0 where
  pub header : DumpHeader
  pub pixels : List ℕ

-- A product of 64-bit numbers.
abbrev pub pixel_bytes : Extent → ℕ → ℕ
pixel_bytes extent format = extent.width * extent.height % 2 ^ 64 * bytes_per_pixel format % 2 ^ 64

pub record Description : Type 0 where
  pub extent : Extent
  pub format : ℕ
  pub role : ℕ
  pub image : ℕ
  pub frame : ℕ
  pub label : List ℕ

-- The copy of a label over an array of zeros, the last of which stays.
abbrev pub copy_label : List ℕ → List ℕ → List ℕ
copy_label label array =
    let copied = min (length label) (label_capacity - 1) in take copied label ++ drop copied array

unfoldable pub describe : Description → List ℕ → DumpHeader
describe d pixels = record empty_header {
  width = d.extent.width;
  height = d.extent.height;
  bytes = length pixels % 2 ^ 32;
  crc = crc32 pixels 0;
  image = d.image;
  frame = d.frame;
  format = d.format % 2 ^ 8;
  role = d.role % 2 ^ 8;
  label = copy_label d.label empty_header.label;
}

-- The bytes of a label before its first zero.
unfoldable pub label_text : List ℕ → List ℕ
label_text [] = []
label_text (c ∷ label) = if c == 0 then [] else c ∷ label_text label

abbrev pub label_of : DumpHeader → List ℕ
label_of header = label_text header.label
