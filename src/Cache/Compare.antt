-- ===== src/Cache/Compare.antt =====
-- cache_store.cpp: `compare` and `same_modules`.
use lsfg_nx.Base.{
  ℕ, ◌+◌, ◌%◌, ◌^◌, Bool, false, not, ◌&&◌, ◌||◌, List, [], ◌∷◌, ◌==◌, if◌then◌else◌, length,
}
use lsfg_nx.Cache.Store.{LoadedPass, Loaded, PassInput, Contents}

pub record Comparison : Type 0 where
  pub modules : ℕ
  pub differing_modules : ℕ
  pub differing_bytes : ℕ
  pub same_shape : Bool

abbrev pub identical : Comparison → Bool
identical r = r.same_shape && r.differing_modules == 0

-- The loop over the bytes of two modules, which are as many; the counter has 32 bits.
unfoldable pub compare_bytes : List ℕ → List ℕ → ℕ → ℕ
compare_bytes [] fresh differing = differing
compare_bytes (a ∷ cached) [] differing = differing
compare_bytes (a ∷ cached) (b ∷ fresh) differing =
    compare_bytes cached fresh (if a == b then differing else (differing + 1) % 2 ^ 32)

-- The body of the loop over the modules.
unfoldable pub compare_pass : LoadedPass → PassInput → Comparison → Comparison
compare_pass left right result =
    let differing = compare_bytes left.dksh right.dksh 0 in
    if not (left.entry.resource_id == right.entry.resource_id)
      || not (length left.dksh == length right.dksh)
    then record result {
      same_shape = false;
      differing_modules = (result.differing_modules + 1) % 2 ^ 32;
    }
    else if not (differing == 0)
    then record result {
      differing_modules = (result.differing_modules + 1) % 2 ^ 32;
      differing_bytes = (result.differing_bytes + differing) % 2 ^ 32;
    }
    else result

-- The loop over the modules that both have.
unfoldable pub compare_passes : List LoadedPass → List PassInput → Comparison → Comparison
compare_passes [] rights result = result
compare_passes (left ∷ lefts) [] result = result
compare_passes (left ∷ lefts) (right ∷ rights) result =
    compare_passes lefts rights (compare_pass left right result)

unfoldable pub compare_caches : Loaded → Contents → Comparison
compare_caches left right = compare_passes left.passes right.passes (record {
  modules = length right.passes % 2 ^ 32;
  differing_modules = 0;
  differing_bytes = 0;
  same_shape = length left.passes == length right.passes;
})

abbrev pub same_modules : Loaded → Contents → Bool
same_modules left right = identical (compare_caches left right)
