-- ===== src/Log/Ring.antt =====
-- ring_log.cpp: the ring holds the last 256 entries of the history of pushes, and a snapshot shows
-- the newest of them, oldest first.
use lsfg_nx.Base.{
  ℕ, zero, suc, ◌+◌, ◌-◌, ◌%◌, ◌^◌, ◌≤◌, ◌<◌, ◌≡◌, ◌≢◌, refl, ap, ◌∙◌, sym, arith, min, List, [],
  ◌∷◌, ◌++◌, length, drop, get_or, set, length-append, length-set, length-replicate,
  get_or-set_self, get_or-set_ne, get_or-append_left, get_or-append_last, drop_step, drop_length,
  append-nil, append_assoc, take, true, ◌↔◌, take-take_append, take-min_length, length-take,
  take_all, ltb→lt, lt→ltb,
}
use native.Mathlib.Decide.{dec_lt}
use lsfg_nx.Error.{ErrorCode}
use lsfg_nx.Log.{
  message_view, log_message_capacity, LogLevel, LogEntry, RingLog, blank, ring_log_capacity,
  index_of, make_entry, clear, push, copy_entries, snapshot,
}

-- The log after the pushes of a history, oldest first.
pub record Holds (log : RingLog) (history : List LogEntry) : Type 0 where
  pub next : log.next_sequence ≡ length history + 1
  pub count : log.size ≡ min (length history) ring_log_capacity
  pub room : length log.entries ≡ ring_log_capacity
  pub kept :
      (i : ℕ)
      → i < length history
      → length history ≤ i + ring_log_capacity
      → get_or log.entries (i % ring_log_capacity) blank ≡ get_or history i blank

pub clear-Holds : Holds clear []
unfolding clear
clear-Holds = record {
  next = refl;
  count = refl;
  room = length-replicate ring_log_capacity blank;
  kept = λ i h k. absurd (omega arith);
}

push_kept :
    (log : RingLog) (history : List LogEntry) (e : LogEntry) (i : ℕ)
    → Holds log history
    → length history + 1 < 2 ^ 64
    → i < length history + 1
    → length history + 1 ≤ i + ring_log_capacity
    → get_or (set log.entries (index_of log.next_sequence) e) (i % ring_log_capacity) blank
      ≡ get_or (history ++ (e ∷ [])) i blank
push_kept log history e i v w h k = elim (dec_lt i (length history)) [
  | yes old ↦
      let other : index_of log.next_sequence ≢ i % ring_log_capacity = omega (arith, v.next) in
      rw (get_or-set_ne log.entries e blank other, get_or-append_left history (e ∷ []) i blank old)
        (v.kept i old (omega arith))
  | no new ↦
      let last : i ≡ length history = omega arith in
      let same : index_of log.next_sequence ≡ length history % ring_log_capacity =
        omega (arith, v.next) in
      rw (last, same, get_or-append_last history e blank)
        (get_or-set_self log.entries (length history % ring_log_capacity) e blank
          (omega (arith, v.room)))
]

-- A push appends the entry, under the next sequence number, to the history that the log holds.
pub push-Holds :
    (log : RingLog) (history : List LogEntry) (timestamp_us : ℕ) (level : LogLevel)
    (code : ErrorCode) (message : List ℕ)
    → Holds log history
    → length history + 2 < 2 ^ 64
    → Holds
        (push log timestamp_us level code message)
        (history ++ (make_entry (length history + 1) timestamp_us level code message ∷ []))
unfolding push
push-Holds log history timestamp_us level code message v w = rw (← v.next) (record {
  next = omega (arith, grows, v.next);
  count = omega (arith, grows, v.count);
  room = length-set log.entries _ entry ∙ v.room;
  kept = λ i h k.
      push_kept log history entry i v (omega arith) (omega (arith, grows)) (omega (arith, grows));
})
  where
    entry : LogEntry
    entry = make_entry log.next_sequence timestamp_us level code message

    grows : length (history ++ (entry ∷ [])) ≡ length history + 1
    grows = omega (arith, length-append history (entry ∷ []))

copy_entries-drop :
    (log : RingLog) (history : List LogEntry) (n i : ℕ)
    → Holds log history
    → length history + 1 < 2 ^ 64
    → i + n ≡ length history
    → n ≤ ring_log_capacity
    → copy_entries log.entries (i + 1) n ≡ drop i history
unfolding copy_entries
copy_entries-drop log history zero i v w e h =
    let all : i ≡ length history = omega arith in rw all (sym (drop_length history))
copy_entries-drop log history (suc n) i v w e h =
    let here : index_of (i + 1) ≡ i % ring_log_capacity = omega arith in
    let next : (i + 1 + 1) % 2 ^ 64 ≡ suc i + 1 = omega arith in
    rw (here, next, drop_step i history blank (omega arith), v.kept i (omega arith) (omega arith))
      (ap (◌∷◌ (get_or history i blank))
        (copy_entries-drop log history n (suc i) v w (omega arith) (omega arith)))

-- A snapshot is the end of the history: as many entries as were pushed, at most 256 and at most
-- the room of the output, in the order of their pushes.
pub snapshot-drop :
    (log : RingLog) (history : List LogEntry) (output_size : ℕ)
    → Holds log history
    → length history + 1 < 2 ^ 64
    → snapshot log output_size
      ≡ drop (length history - min (min (length history) ring_log_capacity) output_size) history
unfolding snapshot
snapshot-drop log history output_size v w =
    let count : ℕ = min (min (length history) ring_log_capacity) output_size in
    let first : (length history + 1 + 2 ^ 64 - count) % 2 ^ 64 ≡ length history - count + 1 =
      omega arith in
    rw (v.next, v.count, first)
      (copy_entries-drop log history count (length history - count) v w (omega arith) (omega arith))

-- The arguments of a call of `push`.
pub record Message : Type 0 where
  pub timestamp_us : ℕ
  pub level : LogLevel
  pub code : ErrorCode
  pub text : List ℕ

unfoldable pub push_all : RingLog → List Message → RingLog
push_all log [] = log
push_all log (m ∷ ms) = push_all (push log m.timestamp_us m.level m.code m.text) ms

-- The entries of messages that are pushed under consecutive numbers.
unfoldable pub numbered : ℕ → List Message → List LogEntry
numbered sequence [] = []
numbered sequence (m ∷ ms) =
    make_entry sequence m.timestamp_us m.level m.code m.text ∷ numbered (sequence + 1) ms

length-numbered : (n : ℕ) (ms : List Message) → length (numbered n ms) ≡ length ms
unfolding numbered
length-numbered n [] = refl
length-numbered n (m ∷ ms) = ap suc (length-numbered (n + 1) ms)

push_all-Holds :
    (ms : List Message) (log : RingLog) (history : List LogEntry)
    → Holds log history
    → length history + length ms + 1 < 2 ^ 64
    → Holds (push_all log ms) (history ++ numbered (length history + 1) ms)
unfolding push_all numbered
push_all-Holds [] log history v w = rw (append-nil history) v
push_all-Holds (m ∷ ms) log history v w =
    let entry = make_entry (length history + 1) m.timestamp_us m.level m.code m.text in
    let grows : length (history ++ (entry ∷ [])) ≡ length history + 1 =
      omega (arith, length-append history (entry ∷ [])) in
    let held =
      push_all-Holds ms (push log m.timestamp_us m.level m.code m.text) (history ++ (entry ∷ []))
        (push-Holds log history m.timestamp_us m.level m.code m.text v (omega arith))
        (omega (arith, grows)) in
    rw (grows, append_assoc history (entry ∷ []) (numbered (length history + 1 + 1) ms)) at held

-- After any pushes onto a new log, fewer than 2 ^ 64 - 1 of them, a snapshot is the end of the list
-- of their entries, numbered from 1: at most 256, at most the room of the output, oldest first.
pub snapshot-push_all :
    (ms : List Message) (output_size : ℕ)
    → length ms + 1 < 2 ^ 64
    → snapshot (push_all clear ms) output_size
      ≡ drop (length ms - min (min (length ms) ring_log_capacity) output_size) (numbered 1 ms)
snapshot-push_all ms output_size w =
    let held = push_all-Holds ms clear [] clear-Holds (omega arith) in
    let count = length-numbered 1 ms in
    rw (← count)
      (snapshot-drop (push_all clear ms) (numbered 1 ms) output_size held (omega (arith, count)))

-- The text that an entry shows is its message up to 160 bytes, and it says whether that is less
-- than the whole.
pub message_view-make_entry :
    (sequence timestamp_us : ℕ) (level : LogLevel) (code : ErrorCode) (message : List ℕ)
    → let entry = make_entry sequence timestamp_us level code message in
      (message_view entry ≡ take log_message_capacity message)
      × ((entry.truncated ≡ true) ↔ (message_view entry ≢ message))
unfolding make_entry message_view
message_view-make_entry sequence timestamp_us level code message = (
  shown,
  (
    λ cut whole. absurd (omega (arith, ap length (sym shown ∙ whole), short, ltb→lt _ _ cut)),
    λ differs. elim (dec_lt (min (length message) log_message_capacity) (length message)) [
      | yes cut ↦ lt→ltb _ _ cut
      | no all ↦ absurd (differs (shown ∙ take_all log_message_capacity message (omega arith)))
    ],
  ),
)
  where
    size : ℕ
    size = min (length message) log_message_capacity

    short : length (take log_message_capacity message) ≡ min log_message_capacity (length message)
    short = length-take log_message_capacity message

    shown :
        message_view (make_entry sequence timestamp_us level code message)
        ≡ take log_message_capacity message
    shown =
        let e : size % 65536 ≡ size = omega arith in
        rw e (
          take-take_append size message (drop size blank.message) (omega arith)
          ∙ take-min_length log_message_capacity message)
