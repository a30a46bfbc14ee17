-- ===== src/Instrument/Timeline.antt =====
-- presentation.hpp, presentation.cpp: presentation pacing. A signed 32-bit texture index is its bit
-- pattern, a number below 2 ^ 32, so -1 is 2 ^ 32 - 1.
pub mod Counts
use lsfg_nx.Base.{
  ℕ, zero, suc, ◌+◌, ◌-◌, ◌*◌, ◌/◌, ◌%◌, ◌^◌, min, bit_and, bit_or, Bool, true, false, not, ◌&&◌,
  List, [], ◌∷◌, ltb, leb, ◌==◌, if◌then◌else◌, replicate, set, get_or,
}
use lsfg_nx.Instrument.Stat
use lsfg_nx.Instrument.Stat.{Stat, ticks_to_us}

abbrev pub histogram_buckets : ℕ
histogram_buckets = 16

abbrev pub histogram_bucket_us : ℕ
histogram_bucket_us = 4000

abbrev pub index_bits : ℕ
index_bits = 32

pub record PresentTimeline : Type 0 where
  pub present_interval : Stat
  pub acquire_block : Stat
  pub acquire_to_present : Stat
  pub submit_to_present : Stat
  pub sync_wait_block : Stat
  pub histogram : List ℕ
  pub presents : ℕ
  pub acquires : ℕ
  pub submits : ℕ
  pub fences : ℕ
  pub sync_waits : ℕ
  pub outliers : ℕ
  pub sequence_faults : ℕ
  pub last_present_tick : ℕ
  pub last_acquire_begin_tick : ℕ
  pub last_acquire_end_tick : ℕ
  pub last_submit_tick : ℕ
  pub expected_interval_us : ℕ
  pub tolerance_us : ℕ
  pub held_indices : ℕ
  pub last_present_index : ℕ
  pub acquire_open : Bool

unfoldable pub empty : PresentTimeline
empty = record {
  present_interval = Stat.empty;
  acquire_block = Stat.empty;
  acquire_to_present = Stat.empty;
  submit_to_present = Stat.empty;
  sync_wait_block = Stat.empty;
  histogram = replicate histogram_buckets 0;
  presents = 0;
  acquires = 0;
  submits = 0;
  fences = 0;
  sync_waits = 0;
  outliers = 0;
  sequence_faults = 0;
  last_present_tick = 0;
  last_acquire_begin_tick = 0;
  last_acquire_end_tick = 0;
  last_submit_tick = 0;
  expected_interval_us = 0;
  tolerance_us = 0;
  held_indices = 0;
  last_present_index = 2 ^ 32 - 1;
  acquire_open = false;
}

abbrev pub inc64 : ℕ → ℕ
inc64 n = (n + 1) % 2 ^ 64

-- `index >= 0` is that the sign bit is clear.
abbrev pub trackable : ℕ → Bool
trackable index = ltb index (2 ^ 31) && ltb index index_bits

unfoldable pub set_expected_interval_us : PresentTimeline → ℕ → ℕ → PresentTimeline
set_expected_interval_us t microseconds tolerance = record t {
  expected_interval_us = microseconds;
  tolerance_us = tolerance;
}

unfoldable pub on_acquire_begin : PresentTimeline → ℕ → PresentTimeline
on_acquire_begin t tick = record t { last_acquire_begin_tick = tick; acquire_open = true }

unfoldable pub on_acquire_end : PresentTimeline → ℕ → ℕ → PresentTimeline
on_acquire_end t tick texture_index = record t {
  acquires = inc64 t.acquires;
  acquire_block =
      if t.acquire_open && leb t.last_acquire_begin_tick tick
      then Stat.add t.acquire_block (ticks_to_us (tick - t.last_acquire_begin_tick))
      else t.acquire_block;
  acquire_open = false;
  last_acquire_end_tick = tick;
  held_indices =
      if trackable texture_index then bit_or t.held_indices (2 ^ texture_index) else t.held_indices;
}

unfoldable pub on_submit : PresentTimeline → ℕ → PresentTimeline
on_submit t tick = record t { submits = inc64 t.submits; last_submit_tick = tick }

unfoldable pub on_fence : PresentTimeline → ℕ → PresentTimeline
on_fence t tick = record t { fences = inc64 t.fences }

unfoldable pub on_sync_wait : PresentTimeline → ℕ → ℕ → PresentTimeline
on_sync_wait t begin_tick end_tick = record t {
  sync_waits = inc64 t.sync_waits;
  sync_wait_block =
      if leb begin_tick end_tick
      then Stat.add t.sync_wait_block (ticks_to_us (end_tick - begin_tick))
      else t.sync_wait_block;
}

-- The four parts of `on_present`, in its order.
unfoldable pub present_index : PresentTimeline → ℕ → PresentTimeline
present_index t texture_index =
    let bit = 2 ^ texture_index in
    if trackable texture_index
    then record t {
      sequence_faults =
          if bit_and t.held_indices bit == 0 then inc64 t.sequence_faults else t.sequence_faults;
      held_indices = bit_and t.held_indices (2 ^ 32 - 1 - bit);
    }
    else t

abbrev pub deviation : ℕ → ℕ → ℕ
deviation interval expected =
    if ltb expected interval then interval - expected else expected - interval

unfoldable pub add_interval : PresentTimeline → ℕ → PresentTimeline
add_interval t interval =
    let bucket = min (interval / histogram_bucket_us) (histogram_buckets - 1) in
    record t {
      present_interval = Stat.add t.present_interval interval;
      histogram = set t.histogram bucket ((get_or t.histogram bucket 0 + 1) % 2 ^ 32);
      outliers =
          if not (t.expected_interval_us == 0)
            && ltb t.tolerance_us (deviation interval t.expected_interval_us)
          then inc64 t.outliers
          else t.outliers;
    }

unfoldable pub present_pace : PresentTimeline → ℕ → PresentTimeline
present_pace t tick =
    if not (t.last_present_tick == 0) && leb t.last_present_tick tick
    then add_interval t (ticks_to_us (tick - t.last_present_tick))
    else if not (t.last_present_tick == 0)
    then record t { sequence_faults = inc64 t.sequence_faults }
    else t

unfoldable pub present_latency : PresentTimeline → ℕ → PresentTimeline
present_latency t tick = record t {
  acquire_to_present =
      if not (t.last_acquire_end_tick == 0) && leb t.last_acquire_end_tick tick
      then Stat.add t.acquire_to_present (ticks_to_us (tick - t.last_acquire_end_tick))
      else t.acquire_to_present;
  submit_to_present =
      if not (t.last_submit_tick == 0) && leb t.last_submit_tick tick
      then Stat.add t.submit_to_present (ticks_to_us (tick - t.last_submit_tick))
      else t.submit_to_present;
}

unfoldable pub on_present : PresentTimeline → ℕ → ℕ → PresentTimeline
on_present t tick texture_index =
    let counted = record t { presents = inc64 t.presents } in
    let paced = present_pace (present_index counted texture_index) tick in
    record (present_latency paced tick) {
      last_present_tick = tick;
      last_present_index = texture_index;
    }

unfoldable pub reset_intervals : PresentTimeline → PresentTimeline
reset_intervals t = record t {
  present_interval = Stat.empty;
  acquire_block = Stat.empty;
  acquire_to_present = Stat.empty;
  submit_to_present = Stat.empty;
  sync_wait_block = Stat.empty;
  histogram = replicate histogram_buckets 0;
  outliers = 0;
  last_present_tick = 0;
  last_acquire_begin_tick = 0;
  last_acquire_end_tick = 0;
  last_submit_tick = 0;
  acquire_open = false;
}

-- The calls of a timeline, with their arguments.
pub data Call : Type 0 where
  acquire_begin : ℕ → Call
  acquire_end : ℕ → ℕ → Call
  submit : ℕ → Call
  fence : ℕ → Call
  sync_wait : ℕ → ℕ → Call
  present : ℕ → ℕ → Call
  expect : ℕ → ℕ → Call
  reset : Call

unfoldable pub step : PresentTimeline → Call → PresentTimeline
step t (acquire_begin tick) = on_acquire_begin t tick
step t (acquire_end tick index) = on_acquire_end t tick index
step t (submit tick) = on_submit t tick
step t (fence tick) = on_fence t tick
step t (sync_wait begin_tick end_tick) = on_sync_wait t begin_tick end_tick
step t (present tick index) = on_present t tick index
step t (expect microseconds tolerance) = set_expected_interval_us t microseconds tolerance
step t reset = reset_intervals t

unfoldable pub run : PresentTimeline → List Call → PresentTimeline
run t [] = t
run t (call ∷ calls) = run (step t call) calls
