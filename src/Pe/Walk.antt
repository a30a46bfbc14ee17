-- ===== src/Pe/Walk.antt =====
-- pe_resources.cpp: the walk over the directories of the resource section.
use lsfg_nx.Base.{
  ℕ, zero, suc, ◌+◌, ◌-◌, ◌*◌, ◌%◌, ◌^◌, bit_and, not, List, [], ◌∷◌, ◌++◌, Option, none, some, ltb,
  leb, ◌==◌, if◌then◌else◌, length,
}
use lsfg_nx.Error.{ErrorCode}
use lsfg_nx.Outcome.{Outcome, done, failed, ◌>>=◌}
use lsfg_nx.Pe.{Resource, ResourceTable, max_directory_depth, max_resources, read_u16, read_u32}

abbrev pub directory_header_size : ℕ
directory_header_size = 16

abbrev pub directory_entry_size : ℕ
directory_entry_size = 8

abbrev pub data_entry_size : ℕ
data_entry_size = 16

abbrev pub subdirectory_flag : ℕ
subdirectory_flag = 0x8000_0000

abbrev pub offset_mask : ℕ
offset_mask = 0x7FFF_FFFF

-- `Walk`, but for the table, which each step takes and returns.
pub record Walk : Type 0 where
  pub image : List ℕ
  pub section_offset : ℕ
  pub section_size : ℕ
  pub section_rva : ℕ

-- `*field` after `if (!field) return code;`
abbrev pub require : {A : Type 0} → Option A → ErrorCode → Outcome A
require none e = failed e
require (some a) e = done a

-- `walk_data_entry` once it has read the address and the size of the data.
unfoldable pub add_resource : Walk → ℕ → ℕ → ℕ → ResourceTable → ℕ → ℕ → Outcome ResourceTable
add_resource walk type id language table data_rva size =
    let within_section = data_rva - walk.section_rva in
    let resource : Resource = record {
      type = type;
      id = id;
      language = language;
      offset = (walk.section_offset + within_section) % 2 ^ 32;
      size = size;
    } in
    if ltb data_rva walk.section_rva
    then failed ErrorCode.io_error
    else if ltb walk.section_size (within_section + size)
    then failed ErrorCode.io_error
    else if leb max_resources (length table.resources)
    then failed ErrorCode.unsupported
    else done (record table { resources = table.resources ++ (resource ∷ []) })

unfoldable pub walk_data_entry : Walk → ℕ → ℕ → ℕ → ℕ → ResourceTable → Outcome ResourceTable
walk_data_entry walk relative_offset type id language table =
    let offset = walk.section_offset + relative_offset in
    if ltb walk.section_size (relative_offset + data_entry_size)
    then failed ErrorCode.io_error
    else (require (read_u32 walk.image offset) ErrorCode.io_error >>= λ data_rva.
        require (read_u32 walk.image (offset + 4)) ErrorCode.io_error >>= λ size.
        add_resource walk type id language table data_rva size)

-- A walk of a directory one level down: from its offset, for a type and an id.
abbrev pub Visit : Type 0
Visit = ℕ → ℕ → ℕ → ResourceTable → Outcome ResourceTable

-- The `switch` on the depth, for an entry that has a number.
unfoldable pub walk_child : Walk → Visit → ℕ → ℕ → ℕ → ℕ → ℕ → ResourceTable → Outcome ResourceTable
walk_child walk visit depth type id name child table =
    let is_directory = not (bit_and child subdirectory_flag == 0) in
    let child_offset = bit_and child offset_mask in
    if depth == 0
    then if is_directory then visit child_offset name 0 table else failed ErrorCode.io_error
    else if depth == 1
    then if is_directory then visit child_offset type name table else failed ErrorCode.io_error
    else if is_directory
    then failed ErrorCode.unsupported
    else walk_data_entry walk child_offset type id name table

-- The body of the loop over the entries of a directory.
unfoldable pub walk_entry :
    Walk → Visit → ℕ → ℕ → ℕ → ℕ → ℕ → ℕ → ResourceTable → Outcome ResourceTable
walk_entry walk visit depth named_count entries_offset type id index table =
    let entry_offset = walk.section_offset + entries_offset + index * directory_entry_size in
    require (read_u32 walk.image entry_offset) ErrorCode.io_error >>= λ name.
    require (read_u32 walk.image (entry_offset + 4)) ErrorCode.io_error >>= λ child.
    if ltb index named_count
    then done (record table { named_entries_skipped = (table.named_entries_skipped + 1) % 2 ^ 32 })
    else walk_child walk visit depth type id name child table

-- The loop: the next index, and the entries left.
unfoldable pub walk_entries :
    (ℕ → ResourceTable → Outcome ResourceTable) → ℕ → ℕ → ResourceTable → Outcome ResourceTable
walk_entries body index zero table = done table
walk_entries body index (suc count) table = body index table >>= walk_entries body (suc index) count

-- The levels left come first; the depth is the largest depth less these.
unfoldable pub walk_directory : ℕ → Walk → Visit
walk_directory zero walk relative_offset type id table = failed ErrorCode.unsupported
walk_directory (suc levels) walk relative_offset type id table =
    let header_offset = walk.section_offset + relative_offset in
    let entries_offset = relative_offset + directory_header_size in
    let depth = max_directory_depth - suc levels in
    if ltb walk.section_size (relative_offset + directory_header_size)
    then failed ErrorCode.io_error
    else (require (read_u16 walk.image (header_offset + 12)) ErrorCode.io_error >>= λ named_count.
        require (read_u16 walk.image (header_offset + 14)) ErrorCode.io_error >>= λ id_count.
        let entry_count = named_count + id_count in
        if ltb walk.section_size (entries_offset + entry_count * directory_entry_size)
        then failed ErrorCode.io_error
        else walk_entries
            (walk_entry walk (walk_directory levels walk) depth named_count entries_offset type id)
            0 entry_count table)
