-- ===== src/Cache/SameModules.antt =====
-- cache_store.cpp: when `same_modules` holds.
use lsfg_nx.Base.{
  ℕ, ◌+◌, ◌%◌, ◌^◌, ◌≤◌, ◌<◌, ◌≡◌, ◌↔◌, ◌⊎◌, inl, inr, refl, sym, ap, ◌∙◌, arith, true, not, ◌&&◌,
  ◌||◌, List, [], ◌∷◌, ◌==◌, ==_iff, Bool-cases, if-either, length, All, suc,
}
use lsfg_nx.Cache.Store.{LoadedPass, Loaded, PassInput, Contents}
use lsfg_nx.Cache.Compare.{
  Comparison, identical, compare_bytes, compare_pass, compare_passes, compare_caches, same_modules,
}

-- The same modules in the same order: their resources and their bytes.
abbrev pub Same : List LoadedPass → List PassInput → Type 0
Same [] [] = Unit
Same [] (right ∷ rights) = ⊥
Same (left ∷ lefts) [] = ⊥
Same (left ∷ lefts) (right ∷ rights) =
    (left.entry.resource_id ≡ right.entry.resource_id)
    × (left.dksh ≡ right.dksh)
    × Same lefts rights

-- The count does not fall while it does not wrap.
compare_bytes_grows : (xs ys : List ℕ) (d : ℕ) → d + length xs < 2 ^ 32 → d ≤ compare_bytes xs ys d
unfolding compare_bytes
compare_bytes_grows [] ys d h = omega arith
compare_bytes_grows (x ∷ xs) [] d h = omega arith
compare_bytes_grows (x ∷ xs) (y ∷ ys) d h = elim (Bool-cases (x == y)) [
  | inl same ↦ rw same (compare_bytes_grows xs ys d (omega arith))
  | inr other ↦
      let e : (d + 1) % 2 ^ 32 ≡ d + 1 = omega arith in
      rw (other, e) (omega (arith, compare_bytes_grows xs ys (d + 1) (omega arith)))
]

compare_bytes_equal :
    (xs ys : List ℕ) (d : ℕ)
    → d + length xs < 2 ^ 32
    → length xs ≡ length ys
    → compare_bytes xs ys d ≡ d
    → xs ≡ ys
unfolding compare_bytes
compare_bytes_equal [] [] d h k e = refl
compare_bytes_equal [] (y ∷ ys) d h k e = absurd (omega (arith, k))
compare_bytes_equal (x ∷ xs) [] d h k e = absurd (omega (arith, k))
compare_bytes_equal (x ∷ xs) (y ∷ ys) d h k e = elim (Bool-cases (x == y)) [
  | inl same ↦
      let first : x ≡ y = (==_iff x y).0 same in
      let rest = compare_bytes_equal xs ys d (omega arith) (omega (arith, k)) (rw same at e) in
      cc (first, rest)
  | inr other ↦
      let f : (d + 1) % 2 ^ 32 ≡ d + 1 = omega arith in
      absurd (omega (arith, rw (other, f) at e, compare_bytes_grows xs ys (d + 1) (omega arith)))
]

compare_bytes_self : (xs : List ℕ) (d : ℕ) → compare_bytes xs xs d ≡ d
unfolding compare_bytes
compare_bytes_self [] d = refl
compare_bytes_self (x ∷ xs) d =
    let e : (x == x) ≡ true = (==_iff x x).1 refl in rw e (compare_bytes_self xs d)

-- A module that can be counted in 32 bits.
abbrev pub IsSmall : LoadedPass → Type 0
IsSmall left = length left.dksh < 2 ^ 32

-- What one module does to the comparison: nothing where it is the same, and else one more module that
-- differs.
record Compares (left : LoadedPass) (right : PassInput) (before after : Comparison) : Type 0 where
  shaped : after.same_shape ≡ true → before.same_shape ≡ true
  counted :
      ((left.entry.resource_id ≡ right.entry.resource_id)
        × (left.dksh ≡ right.dksh)
        × (after ≡ before))
      ⊎ (after.differing_modules ≡ before.differing_modules + 1)

compare_pass-Compares :
    (left : LoadedPass) (right : PassInput) (r : Comparison)
    → IsSmall left
    → r.differing_modules + 1 < 2 ^ 32
    → Compares left right r (compare_pass left right r)
unfolding compare_pass
compare_pass-Compares left right r small room =
    let more : (r.differing_modules + 1) % 2 ^ 32 ≡ r.differing_modules + 1 = omega arith in
    if-either (Compares left right r)
      (not (left.entry.resource_id == right.entry.resource_id)
        || not (length left.dksh == length right.dksh))
      _ _ (λ _. record { shaped = λ h. cc; counted = inr more })
      (λ shape.
        if-either (Compares left right r) (not (compare_bytes left.dksh right.dksh 0 == 0)) _ _
          (λ _. record { shaped = λ h. h; counted = inr more })
          (λ same.
            let size : length left.dksh ≡ length right.dksh = ground arith in
            let none_ : compare_bytes left.dksh right.dksh 0 ≡ 0 = ground arith in
            record {
              shaped = λ h. h;
              counted = inl (
                ground arith,
                compare_bytes_equal left.dksh right.dksh 0 (omega (arith, small)) size none_,
                refl,
              );
            }))

record ComparesAll (lefts : List LoadedPass) (rights : List PassInput) (before after : Comparison)
    : Type 0 where
  shaped : after.same_shape ≡ true → before.same_shape ≡ true
  counted : before.differing_modules ≤ after.differing_modules
  same :
      length lefts ≡ length rights
      → after.differing_modules ≡ before.differing_modules
      → Same lefts rights

compare_passes-ComparesAll :
    (lefts : List LoadedPass) (rights : List PassInput) (r : Comparison)
    → All IsSmall lefts
    → r.differing_modules + length lefts < 2 ^ 32
    → ComparesAll lefts rights r (compare_passes lefts rights r)
unfolding compare_passes
compare_passes-ComparesAll [] [] r small room = record {
  shaped = λ h. h;
  counted = omega arith;
  same = λ e d. tt;
}
compare_passes-ComparesAll [] (right ∷ rights) r small room = record {
  shaped = λ h. h;
  counted = omega arith;
  same = λ e d. absurd (omega (arith, e));
}
compare_passes-ComparesAll (left ∷ lefts) [] r small room = record {
  shaped = λ h. h;
  counted = omega arith;
  same = λ e d. absurd (omega (arith, e));
}
compare_passes-ComparesAll (left ∷ lefts) (right ∷ rights) r small room =
    let one = compare_pass-Compares left right r small.0 (omega arith) in
    let next = compare_pass left right r in
    elim one.counted [
      | inl (id, bytes, still) ↦
          let rest =
            compare_passes-ComparesAll lefts rights next small.1
              (omega (arith, ap (λ c. c.differing_modules) still)) in
          let count = ap (λ c. c.differing_modules) still in
          record {
            shaped = λ h. one.shaped (rest.shaped h);
            counted = omega (arith, rest.counted, count);
            same = λ e d. (id, bytes, rest.same (omega (arith, e)) (omega (arith, d, count)));
          }
      | inr more ↦
          let rest = compare_passes-ComparesAll lefts rights next small.1 (omega (arith, more)) in
          record {
            shaped = λ h. one.shaped (rest.shaped h);
            counted = omega (arith, rest.counted, more);
            same = λ e d. absurd (omega (arith, rest.counted, more, d));
          }
    ]

compare_pass_equal :
    (left : LoadedPass) (right : PassInput) (r : Comparison)
    → left.entry.resource_id ≡ right.entry.resource_id
    → left.dksh ≡ right.dksh
    → compare_pass left right r ≡ r
unfolding compare_pass
compare_pass_equal left right r id bytes =
    let size : length left.dksh ≡ length right.dksh = ap (λ xs. length xs) bytes in
    let count : compare_bytes left.dksh right.dksh 0 ≡ 0 =
      ap (λ xs. compare_bytes left.dksh xs 0) (sym bytes) ∙ compare_bytes_self left.dksh 0 in
    ground (arith, id, size, count)

compare_passes-Same :
    (lefts : List LoadedPass) (rights : List PassInput) (r : Comparison)
    → Same lefts rights
    → (compare_passes lefts rights r ≡ r) × (length lefts ≡ length rights)
unfolding compare_passes
compare_passes-Same [] [] r h = (refl, refl)
compare_passes-Same [] (right ∷ rights) r h = absurd h
compare_passes-Same (left ∷ lefts) [] r h = absurd h
compare_passes-Same (left ∷ lefts) (right ∷ rights) r (id, bytes, h) =
    let next = compare_pass left right r in
    let (e, size) = compare_passes-Same lefts rights next h in
    (e ∙ compare_pass_equal left right r id bytes, ap suc size)

-- With fewer than 2 ^ 32 cached modules of fewer than 2 ^ 32 bytes each, `same_modules` says whether a
-- cache and what would be written hold the same modules in the same order: the same resources with
-- the same bytes.
pub same_modules_iff :
    (left : Loaded) (right : Contents)
    → All IsSmall left.passes
    → length left.passes < 2 ^ 32
    → (same_modules left right ≡ true) ↔ Same left.passes right.passes
unfolding compare_caches
same_modules_iff left right small few =
    let ls = left.passes in
    let rs = right.passes in
    let r : Comparison = record {
      modules = length rs % 2 ^ 32;
      differing_modules = 0;
      differing_bytes = 0;
      same_shape = length ls == length rs;
    } in
    let all = compare_passes-ComparesAll ls rs r small (omega (arith, few)) in
    let after = compare_passes ls rs r in
    (
      λ h.
          let shape : after.same_shape ≡ true = ground arith in
          let none_ : after.differing_modules ≡ 0 = ground arith in
          all.same ((==_iff (length ls) (length rs)).0 (all.shaped shape)) none_,
      λ h.
          let (e, size) = compare_passes-Same ls rs r h in
          let shape : (length ls == length rs) ≡ true = (==_iff (length ls) (length rs)).1 size in
          ap identical e ∙ ap (λ b. b && true) shape,
    )
