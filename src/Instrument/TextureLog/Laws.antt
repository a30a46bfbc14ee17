-- ===== src/Instrument/TextureLog/Laws.antt =====
-- presentation.cpp: what `find` returns after `record`.
use lsfg_nx.Base.{
  ℕ, zero, suc, ◌+◌, ◌%◌, ◌≤◌, ◌<◌, ◌≡◌, ◌≢◌, ◌⊎◌, refl, ◌∙◌, inl, inr, arith, min, List, [], ◌∷◌,
  length, set, get_or, none, some, Option-cases, length-set, length-replicate, Bool-cases,
}
use native.Mathlib.Decide.{dec_lt}
use lsfg_nx.Instrument.TextureLog.{
  TextureRecord, TextureLog, no_texture, capacity, empty, index_of, entry_of, record_texture, find,
  valid,
}

pub record IsValid (log : TextureLog) : Type 0 where
  pub room : length log.entries ≡ capacity
  pub next_in : log.next < capacity
  pub size_in : log.size ≤ capacity
  pub filling : (log.size ≡ capacity) ⊎ (log.next ≡ log.size)

-- Writing over the entry that the search found.
found_self :
    (es : List TextureRecord) (n i : ℕ) (t : TextureRecord)
    → index_of es n t.handle ≡ some i
    → entry_of (set es i t) n t.handle ≡ some t
unfolding index_of entry_of
found_self [] n i t h = cc
found_self (e ∷ es) zero i t h = cc
found_self (e ∷ es) (suc n) zero t h = ground arith
found_self (e ∷ es) (suc n) (suc i) t h = ground (arith, found_self es n i t)

found_other :
    (es : List TextureRecord) (n i handle : ℕ) (t : TextureRecord)
    → index_of es n t.handle ≡ some i
    → t.handle ≢ handle
    → entry_of (set es i t) n handle ≡ entry_of es n handle
unfolding index_of entry_of
found_other [] n i handle t h d = refl
found_other (e ∷ es) zero zero handle t h d = refl
found_other (e ∷ es) zero (suc i) handle t h d = refl
found_other (e ∷ es) (suc n) zero handle t h d = ground arith
found_other (e ∷ es) (suc n) (suc i) handle t h d = ground (arith, found_other es n i handle t)

-- Writing an entry of a handle that the first `n` entries lack.
new_self :
    (es : List TextureRecord) (n m i : ℕ) (t : TextureRecord)
    → index_of es n t.handle ≡ none
    → i ≤ n
    → i < m
    → i < length es
    → entry_of (set es i t) m t.handle ≡ some t
unfolding index_of entry_of
new_self [] n m i t h p q r = absurd (omega arith)
new_self (e ∷ es) n zero i t h p q r = absurd (omega arith)
new_self (e ∷ es) n (suc m) zero t h p q r = ground arith
new_self (e ∷ es) zero (suc m) (suc i) t h p q r = absurd (omega arith)
new_self (e ∷ es) (suc n) (suc m) (suc i) t h p q r = ground (arith, new_self es n m i t)

-- A write leaves the searches for other handles alone, but for the handle that it overwrites.
overwritten :
    (es : List TextureRecord) (n i handle : ℕ) (t : TextureRecord)
    → t.handle ≢ handle
    → (get_or es i no_texture).handle ≢ handle
    → entry_of (set es i t) n handle ≡ entry_of es n handle
unfolding entry_of
overwritten [] n i handle t d o = refl
overwritten (e ∷ es) zero zero handle t d o = refl
overwritten (e ∷ es) zero (suc i) handle t d o = refl
overwritten (e ∷ es) (suc n) zero handle t d o = ground arith
overwritten (e ∷ es) (suc n) (suc i) handle t d o = ground (arith, overwritten es n i handle t d o)

appended :
    (es : List TextureRecord) (i handle : ℕ) (t : TextureRecord)
    → t.handle ≢ handle
    → entry_of (set es i t) (suc i) handle ≡ entry_of es i handle
unfolding entry_of
appended [] i handle t d = refl
appended (e ∷ []) zero handle t d = ground arith
appended (e ∷ x ∷ es) zero handle t d = ground arith
appended (e ∷ es) (suc i) handle t d = ground (arith, appended es i handle t d)

pub empty-IsValid : IsValid empty
unfolding empty
empty-IsValid = record {
  room = length-replicate capacity no_texture;
  next_in = omega arith;
  size_in = omega arith;
  filling = inr refl;
}

filling_next :
    (next size : ℕ)
    → next < capacity
    → size ≤ capacity
    → (size ≡ capacity) ⊎ (next ≡ size)
    → (min (size + 1) capacity ≡ capacity) ⊎ ((next + 1) % capacity ≡ min (size + 1) capacity)
filling_next next size h k f = elim (dec_lt (size + 1) capacity) [
  | yes p ↦ inr (omega arith)
  | no p ↦ inl (omega arith)
]

-- `record` keeps the log within its array, and its next slot the first free one until it is full.
pub record_texture-IsValid :
    (log : TextureLog) (t : TextureRecord) → IsValid log → IsValid (record_texture log t)
unfolding record_texture
record_texture-IsValid log t v =
    let refilled = filling_next log.next log.size v.next_in v.size_in v.filling in
    elim (Bool-cases (valid t)) [
      | inr bad ↦ rw (bad, record_texture) v
      | inl good ↦ elim (Option-cases (index_of log.entries log.size t.handle)) [
        | inl absent ↦
            rw (good, absent, record_texture)
              (record {
                room = length-set log.entries log.next t ∙ v.room;
                next_in = omega arith;
                size_in = omega arith;
                filling = refilled;
              })
        | inr (i, found) ↦
            rw (good, found, record_texture)
              (record {
                room = length-set log.entries i t ∙ v.room;
                next_in = v.next_in;
                size_in = v.size_in;
                filling = v.filling;
              })
      ]
    ]

-- A recorded texture is found under its handle, as recorded.
pub find-record_texture :
    (log : TextureLog) (t : TextureRecord)
    → IsValid log
    → t.handle ≢ 0
    → find (record_texture log t) t.handle ≡ some t
unfolding record_texture find
find-record_texture log t v h = elim (Option-cases (index_of log.entries log.size t.handle)) [
  | inl absent ↦ ground (
    arith,
    absent,
    new_self log.entries log.size (min (log.size + 1) capacity) log.next t absent (omega arith)
        (omega arith) (omega arith),
  )
  | inr (i, found) ↦ ground (arith, found, found_self log.entries log.size i t found)
]

pub find-record_texture_other :
    (log : TextureLog) (t : TextureRecord) (handle : ℕ)
    → IsValid log
    → t.handle ≢ handle
    → (log.size < capacity) ⊎ ((get_or log.entries log.next no_texture).handle ≢ handle)
    → find (record_texture log t) handle ≡ find log handle
unfolding record_texture find
find-record_texture_other log t handle v d kept =
    elim (Option-cases (index_of log.entries log.size t.handle)) [
      | inr (i, found) ↦ ground (arith, found, found_other log.entries log.size i handle t found d)
      | inl absent ↦ elim (dec_lt log.size capacity) [
        | yes p ↦
            let here : log.next ≡ log.size = omega arith in
            let more : min (log.size + 1) capacity ≡ suc log.size = omega arith in
            ground (arith, absent, here, more, appended log.entries log.size handle t d)
        | no p ↦
            let full : min (log.size + 1) capacity ≡ log.size = omega arith in
            let lost : (get_or log.entries log.next no_texture).handle ≢ handle = elim kept [
              | inl q ↦ absurd (p q)
              | inr q ↦ q
            ] in
            ground (arith, absent, full, overwritten log.entries log.size log.next handle t d lost)
      ]
    ]
