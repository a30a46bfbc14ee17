-- ===== src/Log/Tests.antt =====
-- The theorems on common/logging at concrete logs.
use lsfg_nx.Base.{◌≡◌, refl, arith, List, [], ◌∷◌, map}
use lsfg_nx.Error.{ErrorCode}
use lsfg_nx.Log.{LogLevel, make_entry, push, snapshot, clear, copy_entries}
use lsfg_nx.Log.Ring.{Message, push_all, numbered, snapshot-push_all}

abbrev messages : List Message
messages =
    record { timestamp_us = 5; level = LogLevel.info; code = ErrorCode.ok; text = 1 ∷ [] }
    ∷ record {
      timestamp_us = 6;
      level = LogLevel.warning;
      code = ErrorCode.timed_out;
      text = 2 ∷ [];
    }
    ∷ record { timestamp_us = 9; level = LogLevel.info; code = ErrorCode.ok; text = [] }
    ∷ []

newest_two : map (λ e. e.sequence) (snapshot (push_all clear messages) 2) ≡ 2 ∷ 3 ∷ []
unfolding push_all push clear snapshot copy_entries make_entry
newest_two = refl

snapshot-push_all_example :
    snapshot (push_all clear messages) 1 ≡ make_entry 3 9 LogLevel.info ErrorCode.ok [] ∷ []
unfolding numbered
snapshot-push_all_example = snapshot-push_all messages 1 (omega arith)
