-- ===== src/Profile/Valid.antt =====
-- profile.cpp: what an accepted profile holds.
use lsfg_nx.Base.{
  take_prefix, ℕ, ◌%◌, ◌^◌, ◌≤◌, ◌<◌, ◌≡◌, ◌≢◌, arith, refl, ap, ◌∙◌, true, false, Bool-cases, inl,
  inr, List, [], ◌∷◌, ◌++◌, ◌==◌, length, take, drop, replicate, length-append, length-drop,
  length-replicate, All, All-append,
}
use lsfg_nx.Profile.Text.{same_text}
use lsfg_nx.Profile.{BuildEntry, Presentation, Profile, empty_profile, version_view}
use lsfg_nx.Profile.Apply.{copy_front, has_build, build_entry}

pub record IsBuild (entry : BuildEntry) : Type 0 where
  pub array : length entry.version ≡ 16
  pub named : (0 < entry.version_size) × (entry.version_size ≤ 16)
  pub word : entry.build_id < 2 ^ 64

-- Two builds have neither their version nor their identifier in common.
abbrev pub Differ : BuildEntry → BuildEntry → Type 0
Differ e f = (version_view e ≢ version_view f) × (e.build_id ≢ f.build_id)

abbrev pub Distinct : List BuildEntry → Type 0
Distinct [] = Unit
Distinct (e ∷ es) = All (Differ e) es × Distinct es

pub record IsPresentation (p : Presentation) : Type 0 where
  pub bytes : (p.present_interval < 2 ^ 8) × (p.swapchain_buffers < 2 ^ 8)
  pub words :
      (p.texture_format < 2 ^ 32) × (p.handheld_width < 2 ^ 32) × (p.handheld_height < 2 ^ 32)

pub record IsProfile (p : Profile) : Type 0 where
  pub array : length p.name ≡ 64
  pub named : p.name_size ≤ 63
  pub identified : p.title_id < 2 ^ 64
  pub few : length p.builds ≤ 8
  pub builds : All IsBuild p.builds
  pub distinct : Distinct p.builds
  pub presentation : IsPresentation p.presentation

pub empty_profile-IsProfile : IsProfile empty_profile
empty_profile-IsProfile = record {
  array = length-replicate {A = ℕ} 64 0;
  named = omega arith;
  identified = omega arith;
  few = omega arith;
  builds = tt;
  distinct = tt;
  presentation = record { bytes = omega arith; words = omega arith };
}

pub length-copy_front :
    (array bytes : List ℕ)
    → length bytes ≤ length array
    → length (copy_front array bytes) ≡ length array
length-copy_front array bytes h =
    omega
      (arith, h, length-append bytes (drop (length bytes) array), length-drop (length bytes) array)

same_text_self : (s : List ℕ) → same_text s s ≡ true
same_text_self [] = refl
same_text_self (c ∷ s) = let e : (c == c) ≡ true = ground arith in rw (e, same_text_self s)

same_text_ne : (s t : List ℕ) → same_text s t ≡ false → s ≢ t
same_text_ne s t h e = cc (h, ap (same_text s) e, same_text_self s)

-- A build of a version and an identifier that no build has yet.
module _ (key : List ℕ) (build_id : ℕ) (size : (0 < length key) × (length key ≤ 16))
    (word : build_id < 2 ^ 64) where
  build_entry_view : version_view (build_entry key build_id) ≡ key
  build_entry_view =
      let e : length key % 2 ^ 8 ≡ length key = omega arith in
      ap (λ n. take n (copy_front (replicate 16 0) key)) e
      ∙ take_prefix (length key) key (drop (length key) (replicate 16 0)) refl

  pub build_entry-IsBuild : IsBuild (build_entry key build_id)
  build_entry-IsBuild = record {
    array =
        length-copy_front (replicate 16 0) key (omega (arith, length-replicate {A = ℕ} 16 0))
        ∙ length-replicate {A = ℕ} 16 0;
    named = omega arith;
    word = word;
  }

  pub has_build-Differ :
      (entries : List BuildEntry)
      → has_build key build_id entries ≡ false
      → All (λ e. Differ e (build_entry key build_id)) entries
  unfolding has_build
  has_build-Differ [] h = tt
  has_build-Differ (e ∷ es) h = elim (Bool-cases (same_text (version_view e) key)) [
    | inl same ↦ absurd (ground (arith, h, same))
    | inr other ↦ elim (Bool-cases (e.build_id == build_id)) [
      | inl twice ↦ absurd (ground (arith, h, twice))
      | inr once ↦ (
        (λ p. same_text_ne (version_view e) key other (p ∙ build_entry_view), ground (arith, once)),
        has_build-Differ es (ground (arith, h, other, once)),
      )
    ]
  ]

pub Distinct-append :
    (es : List BuildEntry) (f : BuildEntry)
    → Distinct es
    → All (λ e. Differ e f) es
    → Distinct (es ++ (f ∷ []))
Distinct-append [] f h k = (tt, tt)
Distinct-append (e ∷ es) f h k =
    (All-append (Differ e) es (f ∷ []) h.0 (k.0, tt), Distinct-append es f h.1 k.1)
