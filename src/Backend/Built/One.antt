-- ===== src/Backend/Built/One.antt =====
-- image_graph.cpp and schedule.cpp: the graphs of one generated frame.
use lsfg_nx.Base.{refl, true, false}
use lsfg_nx.Backend.Built.{Schedules, scheduled}

pub normal-Schedules : Schedules false false 1
unfolding scheduled
normal-Schedules numerator denominator = refl

pub hdr-Schedules : Schedules false true 1
unfolding scheduled
hdr-Schedules numerator denominator = refl

pub fast-Schedules : Schedules true false 1
unfolding scheduled
fast-Schedules numerator denominator = refl

pub fast_hdr-Schedules : Schedules true true 1
unfolding scheduled
fast_hdr-Schedules numerator denominator = refl
