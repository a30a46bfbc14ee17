-- ===== src/Instrument/Tests.antt =====
-- The theorems on runtime/instrument at concrete observations.
use lsfg_nx.Base.{◌≡◌, inl, arith, List, [], ◌∷◌, some}
use lsfg_nx.Instrument.Stat
use lsfg_nx.Instrument.Stat.{
  Stat, ticks_to_us, us_to_ticks, ticks_to_us-us_to_ticks, Summarises, empty-Summarises, total,
  add-Summarises, mean, mean_bounds,
}
use lsfg_nx.Instrument.TextureLog
use lsfg_nx.Instrument.TextureLog.{TextureRecord, no_texture, record_texture, find}
use lsfg_nx.Instrument.TextureLog.Laws.{
  IsValid, empty-IsValid, record_texture-IsValid, find-record_texture, find-record_texture_other,
}
use lsfg_nx.Instrument.Trace
use lsfg_nx.Instrument.Trace.{Event, view, push_all, view-push_all}
use lsfg_nx.Instrument.Timeline
use lsfg_nx.Instrument.Timeline.{PresentTimeline, Call, acquire_end, present, submit, run}
use lsfg_nx.Instrument.Timeline.Counts.{Counted, run-Counted}

five : Summarises (Stat.add Stat.empty 5) (5 ∷ [])
unfolding total
five = add-Summarises Stat.empty [] 5 empty-Summarises (omega arith) (omega arith)

add-Summarises_example : Summarises (Stat.add (Stat.add Stat.empty 5) 9) (9 ∷ 5 ∷ [])
unfolding total
add-Summarises_example =
    add-Summarises (Stat.add Stat.empty 5) (5 ∷ []) 9 five (omega arith) (omega arith)

abbrev first_texture : TextureRecord
first_texture = record no_texture { handle = 11; width = 1280 }

abbrev second_texture : TextureRecord
second_texture = record no_texture { handle = 12; width = 1920 }

record_texture-IsValid_example : IsValid (record_texture TextureLog.empty first_texture)
record_texture-IsValid_example = record_texture-IsValid TextureLog.empty first_texture empty-IsValid

find-record_texture_example :
    find (record_texture TextureLog.empty first_texture) 11 ≡ some first_texture
find-record_texture_example =
    find-record_texture TextureLog.empty first_texture empty-IsValid (omega arith)

find-record_texture_other_example :
    find (record_texture (record_texture TextureLog.empty first_texture) second_texture) 11
    ≡ find (record_texture TextureLog.empty first_texture) 11
unfolding TextureLog.empty record_texture TextureLog.index_of
find-record_texture_other_example =
    find-record_texture_other (record_texture TextureLog.empty first_texture) second_texture 11
      (record_texture-IsValid TextureLog.empty first_texture empty-IsValid) (omega arith)
      (inl (omega arith))

abbrev events : List Event
events =
    record { tick = 1; object = 2; detail = 3; kind = Trace.EventKind.sync_wait }
    ∷ record { tick = 4; object = 5; detail = 6; kind = Trace.EventKind.queue_finish }
    ∷ []

abbrev calls : List Call
calls = acquire_end 10 0 ∷ submit 15 ∷ present 20 0 ∷ present 320_020 0 ∷ []

run-Counted_example : Counted 4 0 0 0 (run Timeline.empty calls)
run-Counted_example = run-Counted calls (omega arith)
