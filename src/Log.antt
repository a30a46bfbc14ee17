-- ===== src/Log.antt =====
-- common/logging: the ring log. The spin lock makes each method one step, so it is left out, and a
-- method is a function of the fields it guards.
pub mod Ring
mod Tests
use lsfg_nx.Base.{
  ℕ, zero, suc, ◌+◌, ◌-◌, ◌%◌, ◌^◌, min, Bool, true, false, List, [], ◌∷◌, ◌++◌, ltb, length, take,
  drop, replicate, get_or, set,
}
use lsfg_nx.Error.{ErrorCode}

pub data LogLevel : Type 0 where
  debug info warning error : LogLevel

abbrev pub log_message_capacity : ℕ
log_message_capacity = 160

abbrev pub ring_log_capacity : ℕ
ring_log_capacity = 256

pub record LogEntry : Type 0 where
  pub sequence : ℕ
  pub timestamp_us : ℕ
  pub error : ErrorCode
  pub level : LogLevel
  pub message_size : ℕ
  pub truncated : Bool
  pub message : List ℕ

-- `LogEntry{}`.
abbrev pub blank : LogEntry
blank = record {
  sequence = 0;
  timestamp_us = 0;
  error = ErrorCode.ok;
  level = LogLevel.info;
  message_size = 0;
  truncated = false;
  message = replicate log_message_capacity 0;
}

-- `LogEntry::message_view`.
unfoldable pub message_view : LogEntry → List ℕ
message_view e = take e.message_size e.message

pub record RingLog : Type 0 where
  pub entries : List LogEntry
  pub next_sequence : ℕ
  pub size : ℕ

-- A new log, and one after `clear`.
unfoldable pub clear : RingLog
clear = record { entries = replicate ring_log_capacity blank; next_sequence = 1; size = 0 }

-- `(sequence - 1U) % ring_log_capacity` on 64-bit numbers.
abbrev pub index_of : ℕ → ℕ
index_of sequence = (sequence + 2 ^ 64 - 1) % 2 ^ 64 % ring_log_capacity

-- What `push` writes into the entry of a sequence number.
unfoldable pub make_entry : ℕ → ℕ → LogLevel → ErrorCode → List ℕ → LogEntry
make_entry sequence timestamp_us level code message =
    let bytes_to_copy = min (length message) log_message_capacity in
    record {
      sequence = sequence;
      timestamp_us = timestamp_us;
      error = code;
      level = level;
      message_size = bytes_to_copy % 2 ^ 16;
      truncated = ltb bytes_to_copy (length message);
      message = take bytes_to_copy message ++ drop bytes_to_copy blank.message;
    }

unfoldable pub push : RingLog → ℕ → LogLevel → ErrorCode → List ℕ → RingLog
push log timestamp_us level code message =
    let sequence = log.next_sequence in
    record {
      entries =
          set log.entries (index_of sequence) (make_entry sequence timestamp_us level code message);
      next_sequence = (sequence + 1) % 2 ^ 64;
      size = min (log.size + 1) ring_log_capacity;
    }

-- The loop of `snapshot`: `count` entries from a sequence number on.
unfoldable pub copy_entries : List LogEntry → ℕ → ℕ → List LogEntry
copy_entries entries sequence zero = []
copy_entries entries sequence (suc count) =
    get_or entries (index_of sequence) blank ∷ copy_entries entries ((sequence + 1) % 2 ^ 64) count

-- `snapshot` on an output of the given size: what it writes to the front of it. The count that it
-- returns is the length of that.
unfoldable pub snapshot : RingLog → ℕ → List LogEntry
snapshot log output_size =
    let count = min log.size output_size in
    copy_entries log.entries ((log.next_sequence + 2 ^ 64 - count) % 2 ^ 64) count
