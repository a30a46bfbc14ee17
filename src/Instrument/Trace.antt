-- ===== src/Instrument/Trace.antt =====
-- presentation.hpp, presentation.cpp: the first 256 intercepted calls.
use Prim.Native.String.{String}
use lsfg_nx.Base.{
  ℕ, zero, suc, ◌+◌, ◌-◌, ◌%◌, ◌^◌, ◌≤◌, ◌<◌, ◌≡◌, refl, ap, ◌∙◌, sym, arith, List, [], ◌∷◌, ◌++◌,
  ◌==◌, if◌then◌else◌, replicate, set, length, take, length-set, length-replicate, take-nil,
  append-nil, append_assoc,
}
use native.Mathlib.Decide.{dec_lt}

-- `EventKind`, in the order of its numbers.
pub data EventKind : Type 0 where
  unknown bootstrap_loader device_get_proc_address memory_pool_initialize : EventKind
  texture_initialize window_builder_set_textures window_initialize : EventKind
  window_set_present_interval window_set_num_active_textures window_acquire_texture : EventKind
  queue_submit_commands queue_fence_sync queue_finish sync_wait queue_present_texture : EventKind

pub event_name : EventKind → String
event_name bootstrap_loader = "bootstrap_loader"
event_name device_get_proc_address = "device_get_proc_address"
event_name memory_pool_initialize = "memory_pool_initialize"
event_name texture_initialize = "texture_initialize"
event_name window_builder_set_textures = "window_builder_set_textures"
event_name window_initialize = "window_initialize"
event_name window_set_present_interval = "window_set_present_interval"
event_name window_set_num_active_textures = "window_set_num_active_textures"
event_name window_acquire_texture = "window_acquire_texture"
event_name queue_submit_commands = "queue_submit_commands"
event_name queue_fence_sync = "queue_fence_sync"
event_name queue_finish = "queue_finish"
event_name sync_wait = "sync_wait"
event_name queue_present_texture = "queue_present_texture"
event_name unknown = "unknown"

pub record Event : Type 0 where
  pub tick : ℕ
  pub object : ℕ
  pub detail : ℕ
  pub kind : EventKind

abbrev pub blank : Event
blank = record { tick = 0; object = 0; detail = 0; kind = unknown }

abbrev pub capacity : ℕ
capacity = 256

pub record EventTrace : Type 0 where
  pub entries : List Event
  pub size : ℕ
  pub dropped : ℕ

unfoldable pub empty : EventTrace
empty = record { entries = replicate capacity blank; size = 0; dropped = 0 }

-- The arguments of `push` are the fields of the event.
unfoldable pub push : EventTrace → Event → EventTrace
push trace event =
    if trace.size == capacity
    then record trace { dropped = (trace.dropped + 1) % 2 ^ 64 }
    else record trace { entries = set trace.entries trace.size event; size = trace.size + 1 }

unfoldable pub view : EventTrace → List Event
view trace = take trace.size trace.entries

unfoldable pub push_all : EventTrace → List Event → EventTrace
push_all trace [] = trace
push_all trace (event ∷ events) = push_all (push trace event) events

pub record IsValid (trace : EventTrace) : Type 0 where
  pub room : length trace.entries ≡ capacity
  pub size_in : trace.size ≤ capacity

view-set :
    (es : List Event) (n : ℕ) (e : Event)
    → n < length es
    → take (suc n) (set es n e) ≡ take n es ++ (e ∷ [])
view-set [] n e h = absurd (omega arith)
view-set (x ∷ es) zero e h = refl
view-set (x ∷ es) (suc n) e h = ap (◌∷◌ x) (view-set es n e (omega arith))

push-IsValid : (trace : EventTrace) (e : Event) → IsValid trace → IsValid (push trace e)
unfolding push
push-IsValid trace e v = ground (arith, length-set trace.entries trace.size e)

push-room :
    (trace : EventTrace) (e : Event)
    → IsValid trace
    → trace.size < capacity
    → (view (push trace e) ≡ view trace ++ (e ∷ []))
      × ((push trace e).size ≡ trace.size + 1)
      × ((push trace e).dropped ≡ trace.dropped)
unfolding push view
push-room trace e v h = ground (arith, view-set trace.entries trace.size e)

push-full :
    (trace : EventTrace) (e : Event)
    → trace.size ≡ capacity
    → (view (push trace e) ≡ view trace)
      × ((push trace e).size ≡ trace.size)
      × ((push trace e).dropped ≡ (trace.dropped + 1) % 2 ^ 64)
unfolding push view
push-full trace e h = ground arith

push_all_lem :
    (events : List Event) (trace : EventTrace)
    → IsValid trace
    → trace.dropped + length events < 2 ^ 64
    → (view (push_all trace events) ≡ view trace ++ take (capacity - trace.size) events)
      × ((push_all trace events).dropped
          ≡ trace.dropped + (length events - (capacity - trace.size)))
unfolding push_all
push_all_lem [] trace v h =
    (rw (take-nil Event (capacity - trace.size)) (sym (append-nil (view trace))), omega arith)
push_all_lem (e ∷ es) trace v h = elim (dec_lt trace.size capacity) [
  | yes p ↦
      let (seen, size, dropped) = push-room trace e v p in
      let ih = push_all_lem es (push trace e) (push-IsValid trace e v) (omega arith) in
      let room : capacity - trace.size ≡ suc (capacity - (push trace e).size) = omega arith in
      (
        ih.0
            ∙ rw (seen, room)
                (append_assoc (view trace) (e ∷ []) (take (capacity - (push trace e).size) es)),
        omega (arith, ih.1),
      )
  | no p ↦
      let (seen, size, dropped) = push-full trace e (omega (arith, v.size_in)) in
      let ih = push_all_lem es (push trace e) (push-IsValid trace e v) (omega arith) in
      let room : capacity - trace.size ≡ 0 = omega arith in
      let room' : capacity - (push trace e).size ≡ 0 = omega arith in
      (ih.0 ∙ rw (seen, room, room'), omega (arith, ih.1))
]

empty-IsValid : IsValid empty
unfolding empty
empty-IsValid = record { room = length-replicate capacity blank; size_in = omega arith }

-- A trace shows the first 256 calls in their order, and counts the ones after them.
pub view-push_all :
    (events : List Event)
    → length events < 2 ^ 64
    → (view (push_all empty events) ≡ take capacity events)
      × ((push_all empty events).dropped ≡ length events - capacity)
unfolding empty view
view-push_all events h =
    let (seen, lost) = push_all_lem events empty empty-IsValid (omega arith) in
    (seen, omega (arith, lost))
