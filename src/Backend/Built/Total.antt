-- ===== src/Backend/Built/Total.antt =====
-- image_graph.cpp and schedule.cpp: what `build` and `schedule` make of any configuration.
use lsfg_nx.Base.{
  ◌≢◌, ◌↔◌, ◌≡◌, ◌⊎◌, inl, inr, refl, Bool-cases, ap, subst, sym, arith, ◌∙◌, Bool, true, false,
  ◌||◌, ltb, ◌==◌,
}
use lsfg_nx.Error.{ErrorCode}
use lsfg_nx.Outcome.{
  Outcome, done, failed, faulted, >>=-done, done-injective, of_check, of_check-done,
}
use lsfg_nx.Check.{go}
use lsfg_nx.Graph.{Config, Graph}
use lsfg_nx.Graph.Validate.{validate}
use lsfg_nx.Graph.Build.{build, add_passes, empty_graph}
use lsfg_nx.Backend.Schedule.{Schedule, schedule}
use lsfg_nx.Backend.Built.{IsBuildable, Schedules, config_of, schedule_of, built_schedule}
use lsfg_nx.Backend.Built.One.{normal-Schedules, hdr-Schedules, fast-Schedules, fast_hdr-Schedules}

every-Schedules : (performance hdr : Bool) → Schedules performance hdr 1
every-Schedules false false = normal-Schedules
every-Schedules false true = hdr-Schedules
every-Schedules true false = fast-Schedules
every-Schedules true true = fast_hdr-Schedules

-- What a build that can be scheduled leaves.
pub record Built (config : Config) : Type 0 where
  pub graph : Graph
  pub built : build config ≡ done graph
  pub configured : graph.config ≡ config
  pub valid : validate graph ≡ go
  pub scheduled : schedule graph ≡ done (built_schedule config.generated_frames)

schedule-valid : (g : Graph) (s : Schedule) → schedule g ≡ done s → validate g ≡ go
unfolding schedule
schedule-valid g s h =
    let (t, a, b) = (>>=-done (of_check (validate g)) _) h in of_check-done (validate g) a

-- The two tests of `build`.
abbrev frames_wrong : Config → Bool
frames_wrong config = config.generated_frames == 0 || ltb 3 config.generated_frames

abbrev flow_wrong : Config → Bool
flow_wrong config =
    config.flow_numerator == 0
    || config.flow_denominator == 0
    || ltb config.flow_denominator config.flow_numerator

build_rejects :
    (config : Config)
    → (frames_wrong config ≡ true) ⊎ (flow_wrong config ≡ true)
    → build config ≡ failed ErrorCode.invalid_argument
unfolding build
build_rejects config (inl h) = rw h refl
build_rejects config (inr h) = elim (Bool-cases (frames_wrong config)) [
  | inl f ↦ rw f refl
  | inr f ↦ rw (f, h) refl
]

build_accepts :
    (config : Config) (g : Graph)
    → frames_wrong config ≡ false
    → flow_wrong config ≡ false
    → add_passes config (empty_graph config) ≡ done (tt, g)
    → validate g ≡ go
    → build config ≡ done g
unfolding build
build_accepts config g f w passes valid = rw (f, w, passes, valid) refl

schedule_of-done :
    (built : Outcome (Unit {0} × Graph)) (c : Config) (s : Schedule)
    → schedule_of built ≡ done (c, s)
    → (g : Graph) × (built ≡ done (tt, g)) × (g.config ≡ c) × (schedule g ≡ done s)
unfolding schedule_of
schedule_of-done (done (t, g)) c s h =
    let (s', a, b) = (>>=-done (schedule g) (λ s. done (g.config, s))) h in
    let e = done-injective (g.config, s') (c, s) b in
    (g, cc, ap (λ r. r.0) e, a ∙ ap (λ (r : Config × Schedule). done r.1) e)
schedule_of-done (failed e) c s h = cc
schedule_of-done faulted c s h = cc

-- The tests are those of `IsBuildable`.
IsBuildable-cases :
    (config : Config)
    → IsBuildable config ⊎ ((frames_wrong config ≡ true) ⊎ (flow_wrong config ≡ true))
IsBuildable-cases config = elim (Bool-cases (frames_wrong config)) [
  | inl f ↦ inr (inl f)
  | inr f ↦ elim (Bool-cases (flow_wrong config)) [
    | inl w ↦ inr (inr w)
    | inr w ↦ inl (record { frames = ground (arith, f); flow = ground (arith, w) })
  ]
]

-- A configuration of one generated frame, with a flow extent of at most the output's, is built: its
-- graph keeps the configuration, is valid, and is scheduled in a stage of 34 dispatches and one of 66,
-- in a cycle of 6 frames after 2 frames of warm-up.
pub build-schedule :
    (config : Config) → IsBuildable config → config.generated_frames ≡ 1 → Built config
build-schedule config b one =
    let whole : config_of config.performance config.hdr 1 config.flow_numerator
          config.flow_denominator
        ≡ config =
      cc in
    let runs =
      every-Schedules config.performance config.hdr config.flow_numerator config.flow_denominator in
    let (g, passes, configured, timed) =
      schedule_of-done (add_passes config (empty_graph config)) config (built_schedule 1) (
        subst (λ c. schedule_of (add_passes c (empty_graph c)) ≡ done (c, built_schedule 1)) whole
          runs) in
    let valid = schedule-valid g (built_schedule 1) timed in
    record {
      graph = g;
      built =
          build_accepts config g (ground (arith, b.frames)) (ground (arith, b.flow)) passes valid;
      configured = configured;
      valid = valid;
      scheduled = timed ∙ ap (λ n. done (built_schedule n)) (sym one);
    }

done-not_failed : (g : Graph) → done g ≢ failed ErrorCode.invalid_argument
done-not_failed g h = cc

tests-not_IsBuildable :
    (config : Config)
    → (frames_wrong config ≡ true) ⊎ (flow_wrong config ≡ true)
    → ¬ IsBuildable config
tests-not_IsBuildable config (inl h) b = ground (arith, h, b.frames)
tests-not_IsBuildable config (inr h) b = ground (arith, h, b.flow)

-- Of the configurations that do not ask for two or three generated frames, `build` returns a graph
-- just for those of one generated frame with a flow extent of at most the output's, and refuses just
-- the others as an invalid argument.
pub build_iff :
    (config : Config)
    → config.generated_frames ≢ 2
    → config.generated_frames ≢ 3
    → (((g : Graph) × (build config ≡ done g)) ↔ IsBuildable config)
      × ((build config ≡ failed ErrorCode.invalid_argument) ↔ (¬ IsBuildable config))
build_iff config two three = elim (IsBuildable-cases config) [
  | inl b ↦
      let made = build-schedule config b (omega (arith, b.frames, two, three)) in
      (
        (λ h. b, λ h. (made.graph, made.built)),
        (λ h. absurd (done-not_failed made.graph (sym made.built ∙ h)), λ no. absurd (no b)),
      )
  | inr test ↦
      let refused = build_rejects config test in
      let unfit : ¬ IsBuildable config = tests-not_IsBuildable config test in
      (
        (λ (g, h). absurd (done-not_failed g (sym h ∙ refused)), λ b. absurd (unfit b)),
        (λ h. unfit, λ no. refused),
      )
]
