-- ===== src/Image/Codec.antt =====
-- image_file.cpp: `encode` and `decode`.
use lsfg_nx.Base.{
  ℕ, ◌+◌, ◌-◌, ◌*◌, ◌/◌, ◌%◌, ◌^◌, not, ◌||◌, List, [], ◌∷◌, ◌++◌, ltb, ◌==◌, if◌then◌else◌, length,
  take, drop,
}
use lsfg_nx.Error.{ErrorCode}
use lsfg_nx.Outcome.{Outcome, done, failed, ◌>>=◌}
use lsfg_nx.Graph.{format_rgba16f, role_constant}
use lsfg_nx.Cache.Crc.{crc32}
use lsfg_nx.Dksh.{read_byte, read_u32}
use lsfg_nx.Image.{
  DumpHeader, Dump, pixel_bytes, dump_magic, dump_version, dump_header_size, label_capacity,
}

-- The four bytes of a number in memory, the lowest first.
abbrev pub le32 : ℕ → List ℕ
le32 value = value % 256 ∷ value / 2 ^ 8 % 256 ∷ value / 2 ^ 16 % 256 ∷ value / 2 ^ 24 % 256 ∷ []

-- A header in memory.
abbrev pub header_bytes : DumpHeader → List ℕ
header_bytes h =
    le32 h.magic
    ++ (le32 h.version
        ++ (le32 h.width
            ++ (le32 h.height
                ++ (le32 h.bytes
                    ++ (le32 h.crc
                        ++ (le32 h.image
                            ++ (le32 h.frame
                                ++ ((h.format % 256
                                      ∷ h.role % 256
                                      ∷ h.reserved0_ % 256
                                      ∷ h.reserved0_ / 2 ^ 8 % 256
                                      ∷ [])
                                    ++ (le32 h.reserved1_ ++ h.label)))))))))

unfoldable pub encode : DumpHeader → List ℕ → Outcome (List ℕ)
encode header pixels =
    if not (header.bytes == length pixels)
    then failed ErrorCode.invalid_argument
    else done (header_bytes header ++ pixels)

-- The copy of a header from memory.
unfoldable pub copy_header : List ℕ → Outcome DumpHeader
copy_header bytes = read_u32 bytes 0 >>= λ magic. read_u32 bytes 4 >>= λ version.
    read_u32 bytes 8 >>= λ width. read_u32 bytes 12 >>= λ height. read_u32 bytes 16 >>= λ size.
    read_u32 bytes 20 >>= λ crc. read_u32 bytes 24 >>= λ image. read_u32 bytes 28 >>= λ frame.
    read_byte bytes 32 >>= λ format. read_byte bytes 33 >>= λ role. read_byte bytes 34 >>= λ low.
    read_byte bytes 35 >>= λ high. read_u32 bytes 36 >>= λ reserved1_. done (record {
      magic = magic;
      version = version;
      width = width;
      height = height;
      bytes = size;
      crc = crc;
      image = image;
      frame = frame;
      format = format;
      role = role;
      reserved0_ = low + high * 256;
      reserved1_ = reserved1_;
      label = take label_capacity (drop 40 bytes);
    })

-- The tests of `decode` on the header, and what they leave.
unfoldable pub check_dump : List ℕ → DumpHeader → Outcome Dump
check_dump bytes header =
    if not (header.magic == dump_magic)
    then failed ErrorCode.cache_integrity_failure
    else if not (header.version == dump_version)
    then failed ErrorCode.cache_version_mismatch
    else if ltb format_rgba16f header.format || ltb role_constant header.role
    then failed ErrorCode.cache_integrity_failure
    else if not (
        pixel_bytes (record { width = header.width; height = header.height }) header.format
        == header.bytes)
    then failed ErrorCode.cache_integrity_failure
    else if not (length bytes - dump_header_size == header.bytes)
    then failed ErrorCode.cache_integrity_failure
    else if not (crc32 (drop dump_header_size bytes) 0 == header.crc)
    then failed ErrorCode.cache_integrity_failure
    else done (record { header = header; pixels = drop dump_header_size bytes })

unfoldable pub decode : List ℕ → Outcome Dump
decode bytes =
    if ltb (length bytes) dump_header_size
    then failed ErrorCode.cache_integrity_failure
    else copy_header bytes >>= check_dump bytes
