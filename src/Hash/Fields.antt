-- ===== src/Hash/Fields.antt =====
-- sha256.cpp: `update_field`, a digest over several fields.
use lsfg_nx.Base.{
  take_prefix, drop_prefix, ℕ, ◌^◌, ◌<◌, ◌≡◌, ◌↔◌, arith, refl, sym, ap, ◌∙◌, List, [], ◌∷◌, ◌++◌,
  some, length, take, drop, get_or, All,
}
use lsfg_nx.Hash.{Sha256, new_hasher, update, update_number, update_field, encode_be64, finish}
use lsfg_nx.Hash.Stream.{update_all, concat}
use lsfg_nx.Hash.Reference.{reference, finish-update_all}

-- The fields, one after the other.
unfoldable pub update_fields : Sha256 → List (List ℕ) → Sha256
update_fields s [] = s
update_fields s (field ∷ fields) = update_fields (update_field s field) fields

-- The parts that the calls pass on, and the bytes of these.
abbrev parts_of : List (List ℕ) → List (List ℕ)
parts_of [] = []
parts_of (field ∷ fields) = encode_be64 (length field) ∷ field ∷ parts_of fields

abbrev pub field_bytes : List (List ℕ) → List ℕ
field_bytes fields = concat (parts_of fields)

update_fields_parts :
    (fields : List (List ℕ)) (s : Sha256) → update_fields s fields ≡ update_all s (parts_of fields)
unfolding update_fields update_field update_number update_all
update_fields_parts [] s = refl
update_fields_parts (field ∷ fields) s =
    update_fields_parts fields (update (update s (encode_be64 (length field))) field)

-- A number is known from its eight bytes.
pub encode_be64-injective :
    (a b : ℕ) (xs ys : List ℕ)
    → a < 2 ^ 64
    → b < 2 ^ 64
    → encode_be64 a ++ xs ≡ encode_be64 b ++ ys
    → (a ≡ b) × (xs ≡ ys)
encode_be64-injective a b xs ys l m e =
    let at = λ (i : ℕ). ap (λ zs. get_or zs i 0) e in
    (omega (arith, at 0, at 1, at 2, at 3, at 4, at 5, at 6, at 7), ap (drop 8) e)

-- A field is known from its size and its bytes, whatever follows.
pub field-injective :
    (x y xs ys : List ℕ)
    → length x < 2 ^ 64
    → length y < 2 ^ 64
    → encode_be64 (length x) ++ (x ++ xs) ≡ encode_be64 (length y) ++ (y ++ ys)
    → (x ≡ y) × (xs ≡ ys)
field-injective x y xs ys h k e =
    let (size, rest) = encode_be64-injective (length x) (length y) (x ++ xs) (y ++ ys) h k e in
    (
      sym (take_prefix (length x) x xs refl)
          ∙ ap (take (length x)) rest
          ∙ take_prefix (length x) y ys (sym size),
      sym (drop_prefix (length x) x xs refl)
          ∙ ap (drop (length x)) rest
          ∙ drop_prefix (length x) y ys (sym size),
    )

abbrev pub IsSized : List ℕ → Type 0
IsSized field = length field < 2 ^ 64

field_bytes-injective :
    (xs ys : List (List ℕ))
    → All IsSized xs
    → All IsSized ys
    → field_bytes xs ≡ field_bytes ys
    → xs ≡ ys
field_bytes-injective [] [] h k e = refl
field_bytes-injective [] (y ∷ ys) h k e = cc
field_bytes-injective (x ∷ xs) [] h k e = cc
field_bytes-injective (x ∷ xs) (y ∷ ys) h k e =
    let (first, others) = field-injective x y (field_bytes xs) (field_bytes ys) h.0 k.0 e in
    let tail = field_bytes-injective xs ys h.1 k.1 others in cc (first, tail)

-- The digest over several fields, each of fewer than 2 ^ 64 bytes, is that of their bytes, each after
-- its size, and two such sequences have the same bytes just where they are the same fields: none is a
-- different split of another.
pub update_fields-splits :
    (xs ys : List (List ℕ))
    → All IsSized xs
    → All IsSized ys
    → ((s : Sha256) × (finish (update_fields new_hasher xs) ≡ some (s, reference (field_bytes xs))))
      × ((field_bytes xs ≡ field_bytes ys) ↔ (xs ≡ ys))
update_fields-splits xs ys h k =
    let (s, e, _) = finish-update_all (parts_of xs) [] in
    (
      (s, ap finish (update_fields_parts xs new_hasher) ∙ e),
      (field_bytes-injective xs ys h k, ap field_bytes),
    )
