-- ===== src/Backend/Schedule/Warmup/Cycle.antt =====
-- schedule.cpp, `combine_cycle`: the cycle is a common multiple of the variant counts, so a frame
-- picks the variants that it picked a cycle before.
use native.Mathlib.Nat.{dvd_trans, dvd-mul_left, mod-mod_of_dvd}
use Prim.Native.Nat.{◌∣◌}
use lsfg_nx.Base.{
  ℕ, ◌+◌, ◌*◌, ◌%◌, ◌≤◌, ◌<◌, ◌≡◌, ◌≢◌, refl, ap, ◌∙◌, sym, subst, arith, Bool, true, List, [], ◌∷◌,
  All, Bool-cases, inl, inr, ◌==◌, Option-cases,
}
use lsfg_nx.Graph.{Graph, DispatchEntry}
use lsfg_nx.Backend.Schedule.{
  max_frame_cycle, combine_cycle, combine_cycles, run_dispatch, run_dispatches, run_frame,
}
use lsfg_nx.Outcome.{done}
use lsfg_nx.Backend.Schedule.Lcm.{lcm, lcm_multiple}

dvd_of_multiple : (a n k : ℕ) → n ≡ k * a → a ∣ n
dvd_of_multiple a n k e = subst (λ t. a ∣ t) (sym e) (dvd-mul_left a k)

combine_cycle_lem :
    (cycle variants : ℕ)
    → 0 < cycle
    → 0 < variants
    → combine_cycle cycle variants ≢ 0
    → (combine_cycle cycle variants ≡ lcm cycle variants) × (combine_cycle cycle variants ≤ 64)
unfolding combine_cycle
combine_cycle_lem cycle variants h k ne = ground arith

pub combine_cycles_lem :
    (ds : List DispatchEntry) (cycle r : ℕ)
    → All (λ d. 0 < d.variant_count) ds
    → 0 < cycle
    → cycle ≤ max_frame_cycle
    → combine_cycles ds cycle ≡ done r
    → (cycle ∣ r) × (0 < r) × (r ≤ max_frame_cycle) × All (λ d. d.variant_count ∣ r) ds
unfolding combine_cycles
combine_cycles_lem [] cycle r v h k e =
    let here : cycle ≡ r = ground arith in
    (
      subst (λ t. cycle ∣ t) here (dvd_of_multiple cycle cycle 1 (omega arith)),
      omega arith,
      omega arith,
      tt,
    )
combine_cycles_lem (d ∷ ds) cycle r v h k e =
    elim (Bool-cases (combine_cycle cycle d.variant_count == 0)) [
      | inl none ↦ absurd (ground arith)
      | inr some ↦
          let combined : ℕ = combine_cycle cycle d.variant_count in
          let (same, small) = combine_cycle_lem cycle d.variant_count h v.0 (ground arith) in
          let (x, y, p, q, pos) = lcm_multiple cycle d.variant_count h in
          let (a, b, c, rest) =
            combine_cycles_lem ds combined r v.1 (ground arith) small (ground arith) in
          (
            dvd_trans cycle (dvd_of_multiple cycle combined y (same ∙ p)) a,
            b,
            c,
            (
              dvd_trans d.variant_count (dvd_of_multiple d.variant_count combined x (same ∙ q)) a,
              rest,
            ),
          )
    ]

same_variant :
    (cycle f variants : ℕ)
    → 0 < cycle
    → variants ∣ cycle
    → (cycle + f % cycle) % variants ≡ f % variants
same_variant cycle f variants h d =
    let m : ℕ = cycle + f % cycle in
    let round : m % cycle ≡ f % cycle = grind arith in
    sym (mod-mod_of_dvd variants m d)
    ∙ ap (λ (t : ℕ). t % variants) round
    ∙ mod-mod_of_dvd variants f d

run_dispatch-period :
    (g : Graph) (f f' : ℕ) (d : DispatchEntry) (s : Bool × List Bool)
    → f % d.variant_count ≡ f' % d.variant_count
    → run_dispatch g f d s ≡ run_dispatch g f' d s
unfolding run_dispatch
run_dispatch-period g f f' d (c, w) e = rw (e, run_dispatch)

run_dispatches-period :
    (g : Graph) (cycle f : ℕ) (ds : List DispatchEntry) (s : Bool × List Bool)
    → 0 < cycle
    → All (λ d. d.variant_count ∣ cycle) ds
    → run_dispatches g (cycle + f % cycle) ds s ≡ run_dispatches g f ds s
unfolding run_dispatches
run_dispatches-period g cycle f [] s h v = refl
run_dispatches-period g cycle f (d ∷ ds) s h v =
    let here =
      run_dispatch-period g (cycle + f % cycle) f d s
        (same_variant cycle f d.variant_count h v.0) in
    elim (Option-cases (run_dispatch g f d s)) [
      | inl p ↦ ground (arith, here, p)
      | inr (t, p) ↦ ground (arith, here, p, run_dispatches-period g cycle f ds t h v.1)
    ]

pub run_frame-period :
    (g : Graph) (cycle : ℕ)
    → 0 < cycle
    → All (λ d. d.variant_count ∣ cycle) g.dispatches
    → (f : ℕ) (w : List Bool) → run_frame g (cycle + f % cycle) w ≡ run_frame g f w
unfolding run_frame
run_frame-period g cycle h v f w = run_dispatches-period g cycle f g.dispatches (true, w) h v
