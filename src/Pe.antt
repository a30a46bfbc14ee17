-- ===== src/Pe.antt =====
-- common/pe: the resources of an image of a Windows library. Offsets and sizes are 64-bit sums of
-- 32-bit numbers, which do not wrap. A failed walk leaves an empty table.
pub mod Walk
pub mod Image
pub mod InImage
mod Tests
use lsfg_nx.Base.{
  ℕ, ◌+◌, ◌*◌, ◌%◌, ◌^◌, bit_or, Bool, List, Option, none, some, ltb, if◌then◌else◌, length, get_or,
  take, drop, [],
}

abbrev pub resource_type_rcdata : ℕ
resource_type_rcdata = 10

abbrev pub max_directory_depth : ℕ
max_directory_depth = 3

abbrev pub max_resources : ℕ
max_resources = 8192

pub record Resource : Type 0 where
  pub type : ℕ
  pub id : ℕ
  pub language : ℕ
  pub offset : ℕ
  pub size : ℕ

pub record ResourceTable : Type 0 where
  pub resources : List Resource
  pub named_entries_skipped : ℕ

abbrev pub empty_table : ResourceTable
empty_table = record { resources = []; named_entries_skipped = 0 }

-- Two or four bytes, the lowest first, where they lie in the image.
unfoldable pub read_u16 : List ℕ → ℕ → Option ℕ
read_u16 image offset =
    if ltb (length image) (offset + 2)
    then none
    else some (bit_or (get_or image offset 0) (get_or image (offset + 1) 0 * 2 ^ 8 % 2 ^ 16))

unfoldable pub read_u32 : List ℕ → ℕ → Option ℕ
read_u32 image offset =
    if ltb (length image) (offset + 4)
    then none
    else some (
        bit_or
          (bit_or (bit_or (get_or image offset 0) (get_or image (offset + 1) 0 * 2 ^ 8))
            (get_or image (offset + 2) 0 * 2 ^ 16))
          (get_or image (offset + 3) 0 * 2 ^ 24))

unfoldable pub resource_data : List ℕ → Resource → List ℕ
resource_data image resource =
    if ltb (length image) (resource.offset + resource.size)
    then []
    else take resource.size (drop resource.offset image)
