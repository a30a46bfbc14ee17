-- ===== src/Backend/Schedule/Frames.antt =====
-- schedule.cpp, `run_frame`: with more images written, a frame reads at least ms cleanly and leaves
-- at least ms many images written.
use lsfg_nx.Base.{
  ℕ, zero, suc, ◌+◌, ◌%◌, ◌≡◌, ◌⊎◌, inl, inr, refl, arith, Bool, true, false, not, ◌&&◌, ◌||◌, List,
  [], ◌∷◌, get_elem?, set, some, Option-cases, subst,
}
use lsfg_nx.Graph.{Graph, DispatchEntry, add32}
use lsfg_nx.Backend.Schedule.{
  read_texture, read_textures, write_storage, write_storages, run_dispatch, run_dispatches,
  needs_writing,
}

-- The second marks hold wherever the first do.
abbrev pub Sub : List Bool → List Bool → Type 0
Sub [] [] = Unit {0}
Sub [] (b ∷ ns) = ⊥
Sub (a ∷ ms) [] = ⊥
Sub (a ∷ ms) (b ∷ ns) = ((a ≡ false) ⊎ (b ≡ true)) × Sub ms ns

pub Sub-refl : (ms : List Bool) → Sub ms ms
Sub-refl [] = tt
Sub-refl (true ∷ ms) = (inr refl, Sub-refl ms)
Sub-refl (false ∷ ms) = (inl refl, Sub-refl ms)

pub Sub-trans : (ms ns ks : List Bool) → Sub ms ns → Sub ns ks → Sub ms ks
Sub-trans [] [] [] h k = tt
Sub-trans [] [] (c ∷ ks) h k = k
Sub-trans [] (b ∷ ns) ks h k = absurd h
Sub-trans (a ∷ ms) [] ks h k = absurd h
Sub-trans (a ∷ ms) (b ∷ ns) [] h k = k
Sub-trans (a ∷ ms) (b ∷ ns) (c ∷ ks) h k = (ground arith, Sub-trans ms ns ks h.1 k.1)

Sub-get :
    (ms ns : List Bool) (i : ℕ) (a : Bool)
    → Sub ms ns
    → get_elem? ms i ≡ some a
    → (b : Bool) × (get_elem? ns i ≡ some b) × ((a ≡ false) ⊎ (b ≡ true))
Sub-get [] ns i a h e = absurd (cc)
Sub-get (x ∷ ms) [] i a h e = absurd h
Sub-get (x ∷ ms) (y ∷ ns) zero a h e = (y, refl, ground arith)
Sub-get (x ∷ ms) (y ∷ ns) (suc i) a h e = Sub-get ms ns i a h.1 e

Sub-set : (ms ns : List Bool) (i : ℕ) → Sub ms ns → Sub (set ms i true) (set ns i true)
Sub-set [] [] i h = tt
Sub-set [] (b ∷ ns) i h = absurd h
Sub-set (a ∷ ms) [] i h = absurd h
Sub-set (a ∷ ms) (b ∷ ns) zero h = (inr refl, h.1)
Sub-set (a ∷ ms) (b ∷ ns) (suc i) h = (h.0, Sub-set ms ns i h.1)

set-Sub : (ms : List Bool) (i : ℕ) → Sub ms (set ms i true)
set-Sub [] i = tt
set-Sub (a ∷ ms) zero = (inr refl, Sub-refl ms)
set-Sub (true ∷ ms) (suc i) = (inr refl, set-Sub ms i)
set-Sub (false ∷ ms) (suc i) = (inl refl, set-Sub ms i)

module _ (g : Graph) where
  read_texture_mono :
      (index : ℕ) (w w' : List Bool) (c c' d : Bool)
      → Sub w w'
      → (c ≡ false) ⊎ (c' ≡ true)
      → read_texture g index w c ≡ some d
      → (d' : Bool) × (read_texture g index w' c' ≡ some d') × ((d ≡ false) ⊎ (d' ≡ true))
  unfolding read_texture
  read_texture_mono index w w' c c' d h k e = elim (Option-cases (get_elem? g.bindings index)) [
    | inl p ↦ absurd (ground arith)
    | inr (image, p) ↦ elim (Option-cases (get_elem? g.images image)) [
      | inl q ↦ absurd (ground arith)
      | inr (desc, q) ↦ elim (Option-cases (get_elem? w image)) [
        | inl r ↦ absurd (ground arith)
        | inr (mark, r) ↦
            let (mark', r', m) = Sub-get w w' image mark h r in
            (c' && (not (needs_writing desc) || mark'), ground arith, ground arith)
      ]
    ]
  ]

  read_textures_mono :
      (count index : ℕ) (w w' : List Bool) (c c' d : Bool)
      → Sub w w'
      → (c ≡ false) ⊎ (c' ≡ true)
      → read_textures g index count w c ≡ some d
      → (d' : Bool) × (read_textures g index count w' c' ≡ some d') × ((d ≡ false) ⊎ (d' ≡ true))
  unfolding read_textures
  read_textures_mono zero index w w' c c' d h k e = (c', refl, ground arith)
  read_textures_mono (suc count) index w w' c c' d h k e =
      elim (Option-cases (read_texture g index w c)) [
        | inl p ↦ absurd (ground arith)
        | inr (x, p) ↦
            let (x', p', m) = read_texture_mono index w w' c c' x h k p in
            let (d', q, n) = read_textures_mono count (suc index) w w' x x' d h m (ground arith) in
            (d', ground arith, n)
      ]

  write_storage_mono :
      (index : ℕ) (w w' u : List Bool)
      → Sub w w'
      → write_storage g index w ≡ some u
      → (u' : List Bool) × (write_storage g index w' ≡ some u') × Sub u u' × Sub w u
  unfolding write_storage
  write_storage_mono index w w' u h e = elim (Option-cases (get_elem? g.bindings index)) [
    | inl p ↦ absurd (ground arith)
    | inr (image, p) ↦ elim (Option-cases (get_elem? w image)) [
      | inl r ↦ absurd (ground arith)
      | inr (mark, r) ↦
          let (mark', r', m) = Sub-get w w' image mark h r in
          let here : set w image true ≡ u = ground arith in
          (
            set w' image true,
            ground arith,
            subst (λ t. Sub t (set w' image true)) here (Sub-set w w' image h),
            subst (λ t. Sub w t) here (set-Sub w image),
          )
    ]
  ]

  write_storages_mono :
      (count index : ℕ) (w w' u : List Bool)
      → Sub w w'
      → write_storages g index count w ≡ some u
      → (u' : List Bool) × (write_storages g index count w' ≡ some u') × Sub u u' × Sub w u
  unfolding write_storages
  write_storages_mono zero index w w' u h e =
      let here : w ≡ u = ground arith in
      (w', refl, subst (λ t. Sub t w') here h, subst (λ t. Sub w t) here (Sub-refl w))
  write_storages_mono (suc count) index w w' u h e = elim (Option-cases (write_storage g index w)) [
    | inl p ↦ absurd (ground arith)
    | inr (x, p) ↦
        let (x', p', m, n) = write_storage_mono index w w' x h p in
        let (u', q, s, t) = write_storages_mono count (suc index) x x' u m (ground arith) in
        (u', ground arith, s, Sub-trans w x u n t)
  ]

-- A frame's state at the second is no worse than at the first.
abbrev pub Le : Bool × List Bool → Bool × List Bool → Type 0
Le (c, w) (c', w') = ((c ≡ false) ⊎ (c' ≡ true)) × Sub w w'

run_dispatch_mono :
    (g : Graph) (frame : ℕ) (d : DispatchEntry) (c c' : Bool) (w w' : List Bool)
    (t : Bool × List Bool)
    → Le (c, w) (c', w')
    → run_dispatch g frame d (c, w) ≡ some t
    → (t' : Bool × List Bool) × (run_dispatch g frame d (c', w') ≡ some t') × Le t t' × Sub w t.1
unfolding run_dispatch
run_dispatch_mono g frame d c c' w w' t h e =
    elim (Option-cases (get_elem? g.variants (add32 d.variant_first (frame % d.variant_count)))) [
      | inl p ↦ absurd (ground arith)
      | inr (v, p) ↦ elim (Option-cases (read_textures g v.binding_first v.texture_count w c)) [
        | inl q ↦ absurd (ground arith)
        | inr (x, q) ↦
            elim (Option-cases
              (write_storages g (v.binding_first + v.texture_count) v.storage_count w)) [
                | inl r ↦ absurd (ground arith)
                | inr (u, r) ↦
                    let (x', q', m) =
                      read_textures_mono g v.texture_count v.binding_first w w' c c' x h.1 h.0 q in
                    let (u', r', s, grown) =
                      write_storages_mono g v.storage_count (v.binding_first + v.texture_count) w w'
                        u h.1 r in
                    let here : (x, u) ≡ t = ground arith in
                    (
                      (x', u'),
                      ground arith,
                      subst (λ z. Le z (x', u')) here (m, s),
                      subst (λ z. Sub w z.1) here grown,
                    )
              ]
      ]
    ]

pub run_dispatches_mono :
    (g : Graph) (frame : ℕ) (ds : List DispatchEntry) (c c' : Bool) (w w' : List Bool)
    (t : Bool × List Bool)
    → Le (c, w) (c', w')
    → run_dispatches g frame ds (c, w) ≡ some t
    → (t' : Bool × List Bool) × (run_dispatches g frame ds (c', w') ≡ some t') × Le t t' × Sub w t.1
unfolding run_dispatches
run_dispatches_mono g frame [] c c' w w' t h e =
    let here : (c, w) ≡ t = ground arith in
    ((c', w'), refl, subst (λ z. Le z (c', w')) here h, subst (λ z. Sub w z.1) here (Sub-refl w))
run_dispatches_mono g frame (d ∷ ds) c c' w w' t h e =
    elim (Option-cases (run_dispatch g frame d (c, w))) [
      | inl p ↦ absurd (ground arith)
      | inr ((x, u), p) ↦
          let ((x', u'), p', m, grown) = run_dispatch_mono g frame d c c' w w' (x, u) h p in
          let (t', q, n, more) = run_dispatches_mono g frame ds x x' u u' t m (ground arith) in
          (t', ground arith, n, Sub-trans w u t.1 grown more)
    ]
