-- ===== src/Instrument/Timeline/Counts.antt =====
-- presentation.cpp: how the counters of a timeline hang together.
use lsfg_nx.Base.{
  ℕ, zero, suc, ◌+◌, ◌-◌, ◌*◌, ◌/◌, ◌%◌, ◌^◌, ◌≤◌, ◌<◌, ◌≡◌, refl, arith, min, List, [], ◌∷◌,
  length, set, get_or, length-set,
}
use lsfg_nx.Instrument.Stat
use lsfg_nx.Instrument.Stat.{Stat, total, ticks_to_us}
use lsfg_nx.Instrument.Timeline.{
  PresentTimeline, histogram_buckets, empty, on_acquire_begin, on_acquire_end, on_submit, on_fence,
  on_sync_wait, present_index, present_pace, present_latency, add_interval, on_present,
  reset_intervals, set_expected_interval_us, Call, acquire_begin, acquire_end, submit, fence,
  sync_wait, present, expect, reset, step, run,
}

-- Every count is of something that happened, and the histogram is of the intervals. What a call of
-- `on_present` still owes stands in the slacks: of the intervals, the latencies and the faults.
pub record Counted (limit interval latency fault : ℕ) (t : PresentTimeline) : Type 0 where
  pub buckets : length t.histogram ≡ histogram_buckets
  pub binned : total t.histogram ≡ t.present_interval.count
  pub outlying : t.outliers ≤ t.present_interval.count
  pub intervals : t.present_interval.count + interval ≤ t.presents
  pub acquired : t.acquire_to_present.count + latency ≤ t.presents
  pub submitted : t.submit_to_present.count + latency ≤ t.presents
  pub blocked : t.acquire_block.count ≤ t.acquires
  pub waited : t.sync_wait_block.count ≤ t.sync_waits
  pub faults : t.sequence_faults + fault ≤ 2 * t.presents
  pub presents_in : t.presents ≤ limit
  pub acquires_in : t.acquires ≤ limit
  pub waits_in : t.sync_waits ≤ limit

total-set :
    (xs : List ℕ) (i v : ℕ) → i < length xs → total (set xs i v) + get_or xs i 0 ≡ total xs + v
unfolding total
total-set [] i v h = absurd (omega arith)
total-set (x ∷ xs) zero v h = omega arith
total-set (x ∷ xs) (suc i) v h = omega (arith, total-set xs i v (omega arith))

get_or-le-total : (xs : List ℕ) (i : ℕ) → get_or xs i 0 ≤ total xs
unfolding total
get_or-le-total [] i = omega arith
get_or-le-total (x ∷ xs) zero = omega arith
get_or-le-total (x ∷ xs) (suc i) = omega (arith, get_or-le-total xs i)

count-add : (s : Stat) (v : ℕ) → (Stat.add s v).count ≡ (s.count + 1) % 2 ^ 64
unfolding Stat.add
count-add s v = refl

module _ (limit : ℕ) (h : limit < 2 ^ 31) (t : PresentTimeline) where
  index-Counted : (index : ℕ) → Counted limit 1 1 2 t → Counted limit 1 1 1 (present_index t index)
  unfolding present_index
  index-Counted index v = ground arith

  interval-Counted :
      (interval : ℕ) → Counted limit 1 1 1 t → Counted limit 0 1 0 (add_interval t interval)
  unfolding add_interval
  interval-Counted interval v =
      let bucket = min (interval / 4000) 15 in
      let more = (get_or t.histogram bucket 0 + 1) % 2 ^ 32 in
      ground (
        arith,
        count-add t.present_interval interval,
        length-set t.histogram bucket more,
        total-set t.histogram bucket more,
        get_or-le-total t.histogram bucket,
      )

  pace-Counted : (tick : ℕ) → Counted limit 1 1 1 t → Counted limit 0 1 0 (present_pace t tick)
  unfolding present_pace
  pace-Counted tick v =
      ground (arith, interval-Counted (ticks_to_us (tick - t.last_present_tick)) v)

  latency-Counted :
      (tick : ℕ) → Counted limit 0 1 0 t → Counted limit 0 0 0 (present_latency t tick)
  unfolding present_latency
  latency-Counted tick v = ground (
    arith,
    count-add t.acquire_to_present (ticks_to_us (tick - t.last_acquire_end_tick)),
    count-add t.submit_to_present (ticks_to_us (tick - t.last_submit_tick)),
  )

present-Counted :
    (limit : ℕ) (t : PresentTimeline) (tick index : ℕ)
    → limit + 1 < 2 ^ 31
    → Counted limit 0 0 0 t
    → Counted (limit + 1) 0 0 0 (on_present t tick index)
unfolding on_present
present-Counted limit t tick index h v =
    let t₁ : PresentTimeline = record t { presents = (t.presents + 1) % 2 ^ 64 } in
    let v₁ : Counted (limit + 1) 1 1 2 t₁ = ground arith in
    let v₂ = index-Counted (limit + 1) h t₁ index v₁ in
    let v₃ = pace-Counted (limit + 1) h (present_index t₁ index) tick v₂ in
    let v₄ = latency-Counted (limit + 1) h (present_pace (present_index t₁ index) tick) tick v₃ in
    ground (arith, v₄)

empty-Counted : Counted 0 0 0 0 empty
unfolding empty total
empty-Counted = omega arith

step-Counted :
    (limit : ℕ) (t : PresentTimeline) (call : Call)
    → limit + 1 < 2 ^ 31
    → Counted limit 0 0 0 t
    → Counted (limit + 1) 0 0 0 (step t call)
unfolding step on_acquire_begin on_acquire_end on_sync_wait on_submit on_fence
    set_expected_interval_us reset_intervals total
step-Counted limit t (acquire_begin tick) h v = ground arith
step-Counted limit t (acquire_end tick index) h v =
    ground (arith, count-add t.acquire_block (ticks_to_us (tick - t.last_acquire_begin_tick)))
step-Counted limit t (submit tick) h v = ground arith
step-Counted limit t (fence tick) h v = ground arith
step-Counted limit t (sync_wait b e) h v =
    ground (arith, count-add t.sync_wait_block (ticks_to_us (e - b)))
step-Counted limit t (present tick index) h v = present-Counted limit t tick index h v
step-Counted limit t (expect microseconds tolerance) h v = ground arith
step-Counted limit t reset h v = ground arith

run-Counted_from :
    (calls : List Call) (limit : ℕ) (t : PresentTimeline)
    → limit + length calls < 2 ^ 31
    → Counted limit 0 0 0 t
    → Counted (limit + length calls) 0 0 0 (run t calls)
unfolding run
run-Counted_from [] limit t h v = let e : limit + 0 ≡ limit = omega arith in rw e v
run-Counted_from (call ∷ calls) limit t h v =
    let e : limit + suc (length calls) ≡ limit + 1 + length calls = omega arith in
    rw e (
      run-Counted_from calls (limit + 1) (step t call) (omega arith)
        (step-Counted limit t call (omega arith) v))

-- After any fewer than 2 ^ 31 calls, resets among them: the buckets of the histogram add up to the
-- number of intervals, no more outliers are counted than intervals, nor more intervals or latencies
-- than presents, nor more blocked acquires or waits than acquires or waits, nor more than two
-- sequence faults for each present.
pub run-Counted :
    (calls : List Call) → length calls < 2 ^ 31 → Counted (length calls) 0 0 0 (run empty calls)
run-Counted calls h =
    let e : 0 + length calls ≡ length calls = omega arith in
    rw e at (run-Counted_from calls 0 empty (omega arith) empty-Counted)
