-- ===== src/Pe/Image.antt =====
-- pe_resources.cpp: `enumerate_resources`, which finds the resource section from the headers.
use lsfg_nx.Base.{
  ℕ, zero, suc, ◌+◌, ◌-◌, ◌*◌, max, Bool, true, false, not, ◌||◌, List, Option, none, some, ltb,
  leb, ◌==◌, if◌then◌else◌, length,
}
use lsfg_nx.Error.{ErrorCode}
use lsfg_nx.Outcome.{Outcome, done, failed, ◌>>=◌}
use lsfg_nx.Pe.{ResourceTable, empty_table, max_directory_depth, read_u16, read_u32}
use lsfg_nx.Pe.Walk.{Walk, require, walk_directory}

abbrev pub dos_magic : ℕ
dos_magic = 0x5A4D

abbrev pub pe_signature : ℕ
pe_signature = 0x4550

abbrev pub optional_magic_pe32 : ℕ
optional_magic_pe32 = 0x010B

abbrev pub optional_magic_pe32_plus : ℕ
optional_magic_pe32_plus = 0x020B

abbrev pub dos_lfanew_offset : ℕ
dos_lfanew_offset = 0x3C

abbrev pub coff_header_size : ℕ
coff_header_size = 20

abbrev pub section_header_size : ℕ
section_header_size = 40

abbrev pub resource_directory_index : ℕ
resource_directory_index = 2

pub record Section : Type 0 where
  pub virtual_address : ℕ
  pub virtual_size : ℕ
  pub raw_offset : ℕ
  pub raw_size : ℕ

-- `if (!field || test) return code;`
abbrev pub expect : Option ℕ → (ℕ → Bool) → ErrorCode → Outcome ℕ
expect none wrong e = failed e
expect (some a) wrong e = if wrong a then failed e else done a

-- Where the headers say that the resource directory and the section headers are.
pub record Headers : Type 0 where
  pub resource_rva : ℕ
  pub section_count : ℕ
  pub sections_offset : ℕ

-- The `switch` on the magic number: where the directories start, after their count.
unfoldable pub directories_after : ℕ → ℕ → Outcome ℕ
directories_after magic optional_offset =
    if magic == optional_magic_pe32
    then done (optional_offset + 92)
    else if magic == optional_magic_pe32_plus
    then done (optional_offset + 108)
    else failed ErrorCode.unsupported

-- `enumerate_resources` up to the loop over the sections.
unfoldable pub read_headers : List ℕ → Outcome Headers
unfolding directories_after
read_headers image =
    expect (read_u16 image 0) (λ magic. not (magic == dos_magic)) ErrorCode.unsupported >>= λ magic.
    require (read_u32 image dos_lfanew_offset) ErrorCode.io_error >>= λ pe_offset.
    expect (read_u32 image pe_offset) (λ s. not (s == pe_signature)) ErrorCode.unsupported
    >>= λ signature.
        let coff_offset = pe_offset + 4 in
        require (read_u16 image (coff_offset + 2)) ErrorCode.io_error >>= λ section_count.
        require (read_u16 image (coff_offset + 16)) ErrorCode.io_error >>= λ optional_size.
        let optional_offset = coff_offset + coff_header_size in
        require (read_u16 image optional_offset) ErrorCode.io_error >>= λ optional_magic.
        directories_after optional_magic optional_offset >>= λ directory_count_offset.
        expect (read_u32 image directory_count_offset) (λ n. leb n resource_directory_index)
          ErrorCode.unsupported
        >>= λ directory_count.
            let resource_directory_offset =
              directory_count_offset + 4 + resource_directory_index * 8 in
            require (read_u32 image resource_directory_offset) ErrorCode.io_error
            >>= λ resource_rva.
                require (read_u32 image (resource_directory_offset + 4)) ErrorCode.io_error
                >>= λ resource_size.
                    if resource_rva == 0 || resource_size == 0
                    then failed ErrorCode.unsupported
                    else done (record {
                      resource_rva = resource_rva;
                      section_count = section_count;
                      sections_offset = optional_offset + optional_size;
                    })

-- One section header.
unfoldable pub read_section : List ℕ → ℕ → Outcome Section
read_section image header =
    require (read_u32 image (header + 8)) ErrorCode.io_error >>= λ virtual_size.
    require (read_u32 image (header + 12)) ErrorCode.io_error >>= λ virtual_address.
    require (read_u32 image (header + 16)) ErrorCode.io_error >>= λ raw_size.
    require (read_u32 image (header + 20)) ErrorCode.io_error >>= λ raw_offset. done (record {
      virtual_address = virtual_address;
      virtual_size = virtual_size;
      raw_offset = raw_offset;
      raw_size = raw_size;
    })

-- Whether a section holds an address.
abbrev pub holds : Section → ℕ → Bool
holds s rva =
    not (ltb rva s.virtual_address || leb (s.virtual_address + max s.virtual_size s.raw_size) rva)

-- The loop over the sections, and the test after it: the headers left, and the next of them.
unfoldable pub find_section : List ℕ → ℕ → ℕ → ℕ → Outcome Section
unfolding read_section
find_section image rva zero header = failed ErrorCode.unsupported
find_section image rva (suc count) header = read_section image header >>= λ s. elim (holds s rva) [
  | true ↦ done s
  | false ↦ find_section image rva count (header + section_header_size)
]

-- The walk over the directories of a section.
unfoldable pub walk_of : List ℕ → ℕ → Section → Outcome Walk
walk_of image rva s =
    let within = rva - s.virtual_address in
    if ltb (length image) (s.raw_offset + s.raw_size)
    then failed ErrorCode.io_error
    else if ltb rva s.virtual_address
    then failed ErrorCode.io_error
    else if leb s.raw_size within
    then failed ErrorCode.io_error
    else done (record {
      image = image;
      section_offset = s.raw_offset + within;
      section_size = s.raw_size - within;
      section_rva = rva;
    })

unfoldable pub enumerate_resources : List ℕ → Outcome ResourceTable
enumerate_resources image = read_headers image >>= λ headers.
    find_section image headers.resource_rva headers.section_count headers.sections_offset >>= λ s.
    walk_of image headers.resource_rva s >>= λ walk.
    walk_directory max_directory_depth walk 0 0 0 empty_table
