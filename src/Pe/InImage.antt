-- ===== src/Pe/InImage.antt =====
-- pe_resources.cpp: the resources that a walk finds lie in the image.
use lsfg_nx.Base.{
  ℕ, zero, suc, ◌+◌, ◌-◌, ◌*◌, ◌%◌, ◌^◌, ◌≤◌, ◌<◌, ◌≡◌, bit_and, arith, subst, false, not, List, [],
  ◌∷◌, ◌++◌, ltb, leb, ◌==◌, length, length-append, All, All-append, All-mono, drop, length-take,
  length-drop,
}
use lsfg_nx.Error.{ErrorCode}
use lsfg_nx.Outcome.{
  Outcome, done, Ensures, Ensures-done, Ensures-failed, Ensures-result, Ensures-if, Ensures-guard,
  Ensures-bind, Ensures-then,
}
use lsfg_nx.Pe.{
  Resource, ResourceTable, empty_table, read_u32, read_u16, max_directory_depth, resource_data,
}
use lsfg_nx.Pe.Walk.{
  Walk, Visit, require, add_resource, walk_data_entry, walk_child, walk_entry, walk_entries,
  walk_directory, subdirectory_flag, offset_mask,
}
use lsfg_nx.Pe.Image.{Section, read_headers, find_section, walk_of, enumerate_resources}

-- A section that lies in an image whose offsets fit 32 bits.
pub record IsInside (walk : Walk) : Type 0 where
  pub within : walk.section_offset + walk.section_size ≤ length walk.image
  pub small : length walk.image < 2 ^ 32

-- Every resource lies in so many bytes, and there are not too many.
pub record IsSound (bytes : ℕ) (table : ResourceTable) : Type 0 where
  pub inside : All (λ r. r.offset + r.size ≤ bytes) table.resources
  pub bounded : length table.resources ≤ 8192

module _ (walk : Walk) (w : IsInside walk) where
  abbrev Sound : ResourceTable → Type 0
  Sound table = IsSound (length walk.image) table

  -- A step that keeps tables sound.
  abbrev Keeps : (ResourceTable → Outcome ResourceTable) → Type 0
  Keeps f = (table : ResourceTable) → Sound table → Ensures Sound (f table)

  push-IsSound :
      (r : Resource) (table : ResourceTable)
      → Sound table
      → r.offset + r.size ≤ length walk.image
      → length table.resources < 8192
      → Sound (record table { resources = table.resources ++ (r ∷ []) })
  push-IsSound r table s inside room = record {
    inside =
        All-append (λ r. r.offset + r.size ≤ length walk.image) table.resources (r ∷ []) s.inside
          (inside, tt);
    bounded = omega (arith, length-append table.resources (r ∷ []), room);
  }

  add_resource-Keeps :
      (type id language data_rva size : ℕ)
      → Keeps (λ table. add_resource walk type id language table data_rva size)
  unfolding add_resource
  add_resource-Keeps type id language data_rva size table s =
      let r : Resource = record {
        type = type;
        id = id;
        language = language;
        offset = (walk.section_offset + (data_rva - walk.section_rva)) % 2 ^ 32;
        size = size;
      } in
      Ensures-guard Sound (ltb data_rva walk.section_rva) _ _ (λ low.
        Ensures-guard Sound (ltb walk.section_size (data_rva - walk.section_rva + size)) _ _
          (λ within. Ensures-guard Sound (leb 8192 (length table.resources)) _ _ (λ room.
            Ensures-result Sound _
              (push-IsSound r table s (ground (arith, low, within, w)) (ground (arith, room))))))

  walk_data_entry-Keeps :
      (relative_offset type id language : ℕ)
      → Keeps (walk_data_entry walk relative_offset type id language)
  unfolding walk_data_entry
  walk_data_entry-Keeps relative_offset type id language table s =
      let offset = walk.section_offset + relative_offset in
      Ensures-guard Sound (ltb walk.section_size (relative_offset + 16)) _ _ (λ inside.
        Ensures-then Sound (require (read_u32 walk.image offset) ErrorCode.io_error) _ (λ rva.
          Ensures-then Sound (require (read_u32 walk.image (offset + 4)) ErrorCode.io_error) _
            (λ size. add_resource-Keeps type id language rva size table s)))

  walk_child-Keeps :
      (visit : Visit)
      → ((offset type id : ℕ) → Keeps (visit offset type id))
      → (depth type id name child : ℕ) → Keeps (walk_child walk visit depth type id name child)
  unfolding walk_child
  walk_child-Keeps visit keep depth type id name child table s =
      let is_directory = not (bit_and child subdirectory_flag == 0) in
      let offset = bit_and child offset_mask in
      Ensures-if Sound (depth == 0) _ _
        (λ first.
          Ensures-if Sound is_directory _ _ (λ dir. keep offset name 0 table s)
            (λ leaf. Ensures-failed Sound _))
        (λ deeper.
          Ensures-if Sound (depth == 1) _ _
            (λ second.
              Ensures-if Sound is_directory _ _ (λ dir. keep offset type name table s)
                (λ leaf. Ensures-failed Sound _))
            (λ third.
              Ensures-guard Sound is_directory _ _
                (λ leaf. walk_data_entry-Keeps offset type id name table s)))

  walk_entry-Keeps :
      (visit : Visit)
      → ((offset type id : ℕ) → Keeps (visit offset type id))
      → (depth named_count entries_offset type id index : ℕ)
      → Keeps (walk_entry walk visit depth named_count entries_offset type id index)
  unfolding walk_entry
  walk_entry-Keeps visit keep depth named_count entries_offset type id index table s =
      let offset = walk.section_offset + entries_offset + index * 8 in
      Ensures-then Sound (require (read_u32 walk.image offset) ErrorCode.io_error) _ (λ name.
        Ensures-then Sound (require (read_u32 walk.image (offset + 4)) ErrorCode.io_error) _
          (λ child.
            Ensures-if Sound (ltb index named_count) _ _
              (λ named. Ensures-result Sound _ (record { inside = s.inside; bounded = s.bounded }))
              (λ numbered. walk_child-Keeps visit keep depth type id name child table s)))

  walk_entries-Keeps :
      (body : ℕ → ResourceTable → Outcome ResourceTable)
      → ((index : ℕ) → Keeps (body index))
      → (index count : ℕ) → Keeps (walk_entries body index count)
  unfolding walk_entries
  walk_entries-Keeps body keep index zero table s = Ensures-result Sound table s
  walk_entries-Keeps body keep index (suc count) table s =
      Ensures-bind Sound Sound (body index table) (walk_entries body (suc index) count)
        (keep index table s) (walk_entries-Keeps body keep (suc index) count)

  walk_directory-Keeps :
      (levels relative_offset type id : ℕ)
      → Keeps (walk_directory levels walk relative_offset type id)
  unfolding walk_directory
  walk_directory-Keeps zero relative_offset type id table s = Ensures-failed Sound _
  walk_directory-Keeps (suc levels) relative_offset type id table s =
      let offset = walk.section_offset + relative_offset in
      Ensures-guard Sound (ltb walk.section_size (relative_offset + 16)) _ _ (λ header.
        Ensures-then Sound (require (read_u16 walk.image (offset + 12)) ErrorCode.io_error) _
          (λ named_count.
            Ensures-then Sound (require (read_u16 walk.image (offset + 14)) ErrorCode.io_error) _
              (λ id_count.
                Ensures-guard Sound
                  (ltb walk.section_size (relative_offset + 16 + (named_count + id_count) * 8)) _ _
                  (λ entries.
                    walk_entries-Keeps _
                      (walk_entry-Keeps (walk_directory levels walk) (walk_directory-Keeps levels)
                        (max_directory_depth - suc levels) named_count (relative_offset + 16) type
                        id)
                      0 (named_count + id_count) table s))))

walk_of-IsInside :
    (image : List ℕ) (rva : ℕ) (s : Section)
    → length image < 2 ^ 32
    → Ensures (λ walk. IsInside walk × (walk.image ≡ image)) (walk_of image rva s)
unfolding walk_of Ensures
walk_of-IsInside image rva s small = ground arith

enumerate_resources-IsSound :
    (image : List ℕ) (table : ResourceTable)
    → length image < 2 ^ 32
    → enumerate_resources image ≡ done table
    → IsSound (length image) table
unfolding enumerate_resources
enumerate_resources-IsSound image table small h =
    Ensures-done (IsSound (length image)) (enumerate_resources image) table found h
  where
    found : Ensures (IsSound (length image)) (enumerate_resources image)
    found = Ensures-then (IsSound (length image)) (read_headers image) _ (λ headers.
        let sections =
          find_section image headers.resource_rva headers.section_count headers.sections_offset in
        Ensures-then (IsSound (length image)) sections _ (λ s.
          Ensures-bind (λ walk. IsInside walk × (walk.image ≡ image)) (IsSound (length image))
            (walk_of image headers.resource_rva s) _
            (walk_of-IsInside image headers.resource_rva s small)
            (λ walk inside.
              subst
                (λ (i : List ℕ).
                  Ensures (IsSound (length i))
                    (walk_directory max_directory_depth walk 0 0 0 empty_table))
                inside.1
                (walk_directory-Keeps walk inside.0 max_directory_depth 0 0 0 empty_table
                  (record { inside = tt; bounded = omega arith })))))

resource_data-length :
    (image : List ℕ) (r : Resource)
    → r.offset + r.size ≤ length image
    → length (resource_data image r) ≡ r.size
unfolding resource_data
resource_data-length image r h =
    let fits : ltb (length image) (r.offset + r.size) ≡ false = ground arith in
    rw fits (omega (arith, length-take r.size (drop r.offset image), length-drop r.offset image))

-- In an image below 4 GiB at most 8192 resources are found, and every one lies in the image: its
-- data are there at the whole of its size.
pub enumerate_resources-resource_data :
    (image : List ℕ) (table : ResourceTable)
    → length image < 2 ^ 32
    → enumerate_resources image ≡ done table
    → (length table.resources ≤ 8192)
      × All
          (λ r. (r.offset + r.size ≤ length image) × (length (resource_data image r) ≡ r.size))
          table.resources
enumerate_resources-resource_data image table small h =
    let sound = enumerate_resources-IsSound image table small h in
    (
      sound.bounded,
      All-mono (λ r. r.offset + r.size ≤ length image)
          {Q = λ r. (r.offset + r.size ≤ length image) × (length (resource_data image r) ≡ r.size)}
          table.resources (λ r inside. (inside, resource_data-length image r inside)) sound.inside,
    )
