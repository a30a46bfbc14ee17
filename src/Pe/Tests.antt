-- ===== src/Pe/Tests.antt =====
-- The theorem on common/pe at a small image.
use lsfg_nx.Base.{
  ℕ, ◌+◌, ◌≤◌, ◌≡◌, ◌/◌, ◌%◌, arith, refl, List, [], ◌∷◌, ◌++◌, length, replicate, All,
}
use lsfg_nx.Outcome.{done}
use lsfg_nx.Pe.{ResourceTable, resource_data, read_u16, read_u32}
use lsfg_nx.Pe.Walk.{
  add_resource, walk_data_entry, walk_child, walk_entry, walk_entries, walk_directory,
}
use lsfg_nx.Pe.Image.{
  read_headers, directories_after, read_section, find_section, walk_of, enumerate_resources,
}
use lsfg_nx.Pe.InImage.{enumerate_resources-resource_data}

abbrev word : ℕ → List ℕ
word n = n % 256 ∷ n / 256 % 256 ∷ n / 65536 % 256 ∷ n / 16777216 ∷ []

abbrev half : ℕ → List ℕ
half n = n % 256 ∷ n / 256 ∷ []

-- A directory with one entry.
abbrev directory : ℕ → ℕ → List ℕ
directory name child = replicate 14 0 ++ half 1 ++ word name ++ word child

-- The DOS header, the headers of a PE32 image with three directories and one section, and the
-- section: three directories, a data entry, and four bytes of data.
abbrev small_image : List ℕ
small_image =
    (half 0x5A4D ++ replicate 58 0 ++ word 64)
    ++ (word 0x4550 ++ replicate 2 0 ++ half 1 ++ replicate 12 0 ++ half 120 ++ replicate 2 0)
    ++ (half 0x10B ++ replicate 90 0 ++ word 3 ++ replicate 16 0 ++ word 0x1000 ++ word 92)
    ++ (replicate 8 0 ++ word 92 ++ word 0x1000 ++ word 92 ++ word 248 ++ replicate 16 0)
    ++ (directory 10 0x8000_0018 ++ directory 300 0x8000_0030 ++ directory 1033 72)
    ++ (word 0x1058 ++ word 4 ++ replicate 8 0 ++ word 7)

abbrev small_table : ResourceTable
small_table = record {
  resources = record { type = 10; id = 300; language = 1033; offset = 336; size = 4 } ∷ [];
  named_entries_skipped = 0;
}

small_image_enumerated : enumerate_resources small_image ≡ done small_table
unfolding enumerate_resources read_headers directories_after read_section find_section walk_of
    walk_directory walk_entries walk_entry walk_child walk_data_entry add_resource read_u16 read_u32
small_image_enumerated = refl

enumerate_resources-resource_data_example :
    (1 ≤ 8192)
    × All
        (λ r.
          (r.offset + r.size ≤ length small_image)
          × (length (resource_data small_image r) ≡ r.size))
        small_table.resources
enumerate_resources-resource_data_example =
    enumerate_resources-resource_data small_image small_table (omega arith) small_image_enumerated
