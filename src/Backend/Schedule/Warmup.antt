-- ===== src/Backend/Schedule/Warmup.antt =====
-- schedule.cpp, `measure_warmup`: two cycles of frames tell of every later frame.
pub mod Cycle
use native.Mathlib.Decide.{dec_lt}
use lsfg_nx.Base.{
  ℕ, zero, suc, ◌+◌, ◌-◌, ◌*◌, ◌%◌, ◌^◌, ◌≤◌, ◌<◌, ◌≡◌, ◌≢◌, ◌⊎◌, inl, inr, refl, ap, ◌∙◌, sym,
  subst, arith, Bool, true, false, List, [], ◌∷◌, leb, Option, none, some, Option-cases, Bool-cases,
  replicate, length,
}
use lsfg_nx.Error.{ErrorCode}
use lsfg_nx.Graph.{Graph, DispatchEntry}
use lsfg_nx.Backend.Schedule.{run_dispatches, run_frame, measure_frames, measure_warmup}
use lsfg_nx.Outcome.{Outcome, done, failed, faulted}
use lsfg_nx.Backend.Schedule.Frames.{Sub, Sub-refl, Sub-trans, Le, run_dispatches_mono}

-- The marks after `n` frames from frame `f` on.
unfoldable pub run_frames : Graph → ℕ → ℕ → List Bool → Option (List Bool)
run_frames g f zero written = some written
run_frames g f (suc n) written = elim (run_frame g f written) [
  | none ↦ none
  | some (clean, written') ↦ run_frames g (suc f) n written'
]

pub run_frame_mono :
    (g : Graph) (f : ℕ) (w w' u : List Bool) (c : Bool)
    → Sub w w'
    → run_frame g f w ≡ some (c, u)
    → (c' : Bool) × (u' : List Bool) × (run_frame g f w' ≡ some (c', u'))
      × ((c ≡ false) ⊎ (c' ≡ true))
      × Sub w u
unfolding run_frame
run_frame_mono g f w w' u c h e =
    let ((c', u'), p, m, grown) =
      run_dispatches_mono g f g.dispatches true true w w' (c, u) (inr refl, h) e in
    (c', u', p, m.0, grown)

run_frames-Sub : (g : Graph) (n f : ℕ) (w u : List Bool) → run_frames g f n w ≡ some u → Sub w u
unfolding run_frames
run_frames-Sub g zero f w u e =
    let here : w ≡ u = ground arith in subst (λ t. Sub w t) here (Sub-refl w)
run_frames-Sub g (suc n) f w u e = elim (Option-cases (run_frame g f w)) [
  | inl p ↦ absurd (ground arith)
  | inr ((c, x), p) ↦
      let (c', x', q, m, grown) = run_frame_mono g f w w x c (Sub-refl w) p in
      Sub-trans w x u grown (run_frames-Sub g n (suc f) x u (ground arith))
]

prefix-Sub :
    (g : Graph) (m n f : ℕ) (w u v : List Bool)
    → m ≤ n
    → run_frames g f m w ≡ some u
    → run_frames g f n w ≡ some v
    → Sub u v
unfolding run_frames
prefix-Sub g zero n f w u v h e k =
    let here : w ≡ u = ground arith in subst (λ t. Sub t v) here (run_frames-Sub g n f w v k)
prefix-Sub g (suc m) zero f w u v h e k = absurd (omega arith)
prefix-Sub g (suc m) (suc n) f w u v h e k = elim (Option-cases (run_frame g f w)) [
  | inl p ↦ absurd (ground arith)
  | inr ((c, x), p) ↦ prefix-Sub g m n (suc f) x u v (omega arith) (ground arith) (ground arith)
]

-- A frame that ran from the marks of the frames before it, and cleanly unless it is a warm-up frame.
abbrev pub Ran : Graph → ℕ → ℕ → ℕ → ℕ → ℕ → List Bool → Type 0
Ran g cycle warmup f k n w =
    (w' : List Bool) × (c : Bool) × (u : List Bool) × (run_frames g f k w ≡ some w')
    × (run_frame g n w' ≡ some (c, u))
    × ((c ≡ true) ⊎ ((n < warmup) × (n < cycle)))

measure_grows :
    (g : Graph) (cycle left f : ℕ) (w : List Bool) (warmup r : ℕ)
    → measure_frames g cycle left f w warmup ≡ done r
    → warmup ≤ f
    → warmup ≤ r
unfolding measure_frames
measure_grows g cycle zero f w warmup r e h = ground arith
measure_grows g cycle (suc left) f w warmup r e h = elim (Option-cases (run_frame g f w)) [
  | inl p ↦ absurd (ground arith)
  | inr ((true, u), p) ↦ measure_grows g cycle left (suc f) u warmup r (ground arith) (omega arith)
  | inr ((false, u), p) ↦ elim (Bool-cases (leb cycle f)) [
    | inl q ↦ absurd (ground arith)
    | inr q ↦
        let later = measure_grows g cycle left (suc f) u (f + 1) r (ground arith) (omega arith) in
        omega arith
  ]
]

Ran-later :
    (g : Graph) (cycle r f k n : ℕ) (w x : List Bool) (c : Bool)
    → run_frame g f w ≡ some (c, x)
    → Ran g cycle r (suc f) k n x
    → Ran g cycle r f (suc k) n w
unfolding run_frames
Ran-later g cycle r f k n w x c p (w', c', u, a, b, d) = (w', c', u, ground arith, b, d)

-- Every frame that the measurement passes ran.
measured :
    (g : Graph) (cycle left f : ℕ) (w : List Bool) (warmup r k n : ℕ)
    → measure_frames g cycle left f w warmup ≡ done r
    → warmup ≤ f
    → k < left
    → f + k ≡ n
    → Ran g cycle r f k n w
unfolding measure_frames run_frames
measured g cycle zero f w warmup r k n e h lt q = absurd (omega arith)
measured g cycle (suc left) f w warmup r zero n e h lt q =
    let here : f ≡ n = omega arith in
    subst (λ m. Ran g cycle r f 0 m w) here
      (elim (Option-cases (run_frame g f w)) [
        | inl p ↦ absurd (ground arith)
        | inr ((true, u), p) ↦ (w, true, u, refl, p, inl refl)
        | inr ((false, u), p) ↦ elim (Bool-cases (leb cycle f)) [
          | inl late ↦ absurd (ground arith)
          | inr early ↦
              let later =
                measure_grows g cycle left (suc f) u (f + 1) r (ground arith) (omega arith) in
              (w, false, u, refl, p, inr (omega arith, ground arith))
        ]
      ])
measured g cycle (suc left) f w warmup r (suc k) n e h lt q =
    elim (Option-cases (run_frame g f w)) [
      | inl p ↦ absurd (ground arith)
      | inr ((true, u), p) ↦ Ran-later g cycle r f k n w u true p (
          measured g cycle left (suc f) u warmup r k n (ground arith) (omega arith) (omega arith)
            (omega arith))
      | inr ((false, u), p) ↦ elim (Bool-cases (leb cycle f)) [
        | inl late ↦ absurd (ground arith)
        | inr early ↦ Ran-later g cycle r f k n w u false p (
            measured g cycle left (suc f) u (f + 1) r k n (ground arith) (omega arith) (omega arith)
              (omega arith))
      ]
    ]

abbrev pub unwritten : Graph → List Bool
unwritten g = replicate (length g.images) false

-- A frame that repeats after `cycle` frames runs as one of the measured frames does, on at least as
-- many written images.
pub every_frame :
    (g : Graph) (cycle r : ℕ)
    → 0 < cycle
    → cycle < 2 ^ 31
    → measure_warmup g cycle ≡ done r
    → ((f : ℕ) (w : List Bool) → run_frame g (cycle + f % cycle) w ≡ run_frame g f w)
    → (n : ℕ) (w : List Bool) → run_frames g 0 n (unwritten g) ≡ some w
    → (c : Bool) × (u : List Bool) × (run_frame g n w ≡ some (c, u)) × ((c ≡ true) ⊎ (n < r))
unfolding measure_warmup
every_frame g cycle r pos small e periodic n w k = elim (dec_lt n (2 * cycle)) [
  | yes early ↦
      let (w', c, u, a, b, d) =
        measured g cycle (2 * cycle % 2 ^ 32) 0 (unwritten g) 0 r n n e (omega arith) (omega arith)
          (omega arith) in
      let same : w' ≡ w = ground arith in
      (c, u, subst (λ t. run_frame g n t ≡ some (c, u)) same b, ground arith)
  | no late ↦
      let m : ℕ = cycle + n % cycle in
      let low : n % cycle < cycle = omega arith in
      let (w', c, u, a, b, d) =
        measured g cycle (2 * cycle % 2 ^ 32) 0 (unwritten g) 0 r m m e (omega arith) (omega arith)
          (omega arith) in
      let sub = prefix-Sub g m n 0 (unwritten g) w' w (omega arith) a k in
      let (c', u', p, q, grown) = run_frame_mono g m w' w u c sub b in
      (c', u', sym (periodic n w) ∙ p, ground arith)
]
