-- ===== src/Backend/Schedule/Clean.antt =====
-- schedule.cpp, `schedule`: what an accepted schedule promises.
use lsfg_nx.Base.{
  ℕ, zero, suc, ◌+◌, ◌≤◌, ◌<◌, ◌≡◌, ◌⊎◌, inl, inr, refl, subst, arith, Bool, true, List, All,
  All-mono, some, Option-cases,
}
use Prim.Native.Nat.{◌∣◌}
use lsfg_nx.Check.{go, each}
use lsfg_nx.Check.Laws.{each-go}
use lsfg_nx.Graph.{Graph, DispatchEntry}
use lsfg_nx.Graph.Validate.{validate, check_dispatch}
use lsfg_nx.Backend.Schedule.{
  Schedule, lay_out_stages, combine_cycles, measure_warmup, run_frame, schedule, max_frame_cycle,
}
use lsfg_nx.Outcome.{done, of_check, >>=-done, of_check-done}
use lsfg_nx.Backend.Schedule.Warmup.{run_frames, unwritten, every_frame}
use lsfg_nx.Backend.Schedule.Warmup.Cycle.{combine_cycles_lem, run_frame-period}

-- What a successful call of `schedule` went through.
record Steps (g : Graph) (s : Schedule) : Type 0 where
  valid : validate g ≡ go
  laid : lay_out_stages g ≡ done s.stages
  combined : combine_cycles g.dispatches 1 ≡ done s.cycle
  measured : measure_warmup g s.cycle ≡ done s.warmup_frames

schedule-Steps : (g : Graph) (s : Schedule) → schedule g ≡ done s → Steps g s
unfolding schedule
schedule-Steps g s h =
    let (v, a, h₁) = >>=-done (of_check (validate g)) _ h in
    let (stages, b, h₂) = >>=-done (lay_out_stages g) _ h₁ in
    let (cycle, c, h₃) = >>=-done (combine_cycles g.dispatches 1) _ h₂ in
    let (warmup, d, h₄) = >>=-done (measure_warmup g cycle) _ h₃ in
    let here : record { stages = stages; cycle = cycle; warmup_frames = warmup } ≡ s =
      ground arith in
    subst (Steps g) here
      (record { valid = of_check-done (validate g) a; laid = b; combined = c; measured = d })

variant_count_pos : (g : Graph) (d : DispatchEntry) → check_dispatch g d ≡ go → 0 < d.variant_count
unfolding check_dispatch
variant_count_pos g d h = ground arith

variant_counts : (g : Graph) → validate g ≡ go → All (λ d. 0 < d.variant_count) g.dispatches
unfolding validate
variant_counts g h =
    let ran : each g.dispatches (check_dispatch g) ≡ go = ground arith in
    All-mono (λ d. check_dispatch g d ≡ go) g.dispatches (variant_count_pos g)
      ((each-go g.dispatches (check_dispatch g)).0 ran)

-- The cycle of an accepted schedule is from 1 to 64, and a multiple of the variant count of every
-- dispatch, so that each frame runs the variants of the frame a cycle before.
pub schedule-cycle :
    (g : Graph) (s : Schedule)
    → schedule g ≡ done s
    → (0 < s.cycle)
      × (s.cycle ≤ max_frame_cycle)
      × All (λ d. d.variant_count ∣ s.cycle) g.dispatches
schedule-cycle g s h =
    let steps = schedule-Steps g s h in
    let (a, b, c, d) =
      combine_cycles_lem g.dispatches 1 s.cycle (variant_counts g steps.valid) (omega arith)
        (omega arith) steps.combined in
    (b, c, d)

next_marks :
    (g : Graph) (n f : ℕ) (w u v : List Bool) (c : Bool)
    → run_frames g f n w ≡ some u
    → run_frame g (f + n) u ≡ some (c, v)
    → run_frames g f (suc n) w ≡ some v
unfolding run_frames
next_marks g zero f w u v c h k =
    let here : w ≡ u = ground arith in
    let e : f + 0 ≡ f = omega arith in ground (arith, rw (e, ← here) at k)
next_marks g (suc n) f w u v c h k = elim (Option-cases (run_frame g f w)) [
  | inl p ↦ absurd (ground arith)
  | inr ((d, x), p) ↦
      let e : f + suc n ≡ suc f + n = omega arith in
      let rest = next_marks g n (suc f) x u v c (ground arith) (rw e at k) in
      ground (arith, p, rest)
]

-- From the first frame on, every frame of an accepted schedule runs without a read or a write
-- outside an array, however many there are; and every frame after the warm-up reads only images
-- that an earlier frame or the frame itself has written, or that are not the chain's to write.
pub schedule-clean :
    (g : Graph) (s : Schedule)
    → schedule g ≡ done s
    → (n : ℕ)
    → (w : List Bool) × (c : Bool) × (u : List Bool) × (run_frames g 0 n (unwritten g) ≡ some w)
      × (run_frame g n w ≡ some (c, u))
      × ((c ≡ true) ⊎ (n < s.warmup_frames))
unfolding run_frames
schedule-clean g s h n =
    let steps = schedule-Steps g s h in
    let (pos, small, periods) = schedule-cycle g s h in
    let runs =
      every_frame g s.cycle s.warmup_frames pos (omega arith) steps.measured
        (run_frame-period g s.cycle pos periods) in
    from runs n
  where
    from :
        ((n : ℕ) (w : List Bool)
          → run_frames g 0 n (unwritten g) ≡ some w
          → (c : Bool) × (u : List Bool) × (run_frame g n w ≡ some (c, u))
            × ((c ≡ true) ⊎ (n < s.warmup_frames)))
        → (n : ℕ)
        → (w : List Bool) × (c : Bool) × (u : List Bool) × (run_frames g 0 n (unwritten g) ≡ some w)
          × (run_frame g n w ≡ some (c, u))
          × ((c ≡ true) ⊎ (n < s.warmup_frames))
    from runs zero =
        let (c, u, p, q) = runs zero (unwritten g) refl in (unwritten g, c, u, refl, p, q)
    from runs (suc n) =
        let (w, c, u, a, b, d) = from runs n in
        let e : 0 + n ≡ n = omega arith in
        let next = next_marks g n 0 (unwritten g) w u c a (rw e b) in
        let (c', u', p, q) = runs (suc n) u next in (u, c', u', next, p, q)
