-- ===== src/Protocol/Queue.antt =====
-- What the report ring of common/protocol promises: a bounded queue of lines.
use lsfg_nx.Base.{
  ℕ, suc, Bool, true, false, List, [], ◌∷◌, ◌++◌, ◌==◌, if◌then◌else◌, length, take, leb,
}
use lsfg_nx.Protocol.{report_slot_count, report_line_capacity}

pub record Queue : Type 0 where
  pub lines : List (List ℕ)
  pub dropped : ℕ

-- An empty line is refused, a line to a full queue is dropped and counted, and any other is cut to
-- the capacity of a slot and appended.
unfoldable pub push : Queue → List ℕ → Queue × Bool
push q text =
    if length text == 0
    then (q, false)
    else if leb report_slot_count (length q.lines)
    then (record q { dropped = suc q.dropped }, false)
    else (record q { lines = q.lines ++ (take report_line_capacity text ∷ []) }, true)

unfoldable pub peek : Queue → List ℕ
peek q = elim q.lines [ [] ↦ [] | line ∷ rest ↦ line ]

unfoldable pub consume : Queue → Queue
consume q = elim q.lines [ [] ↦ q | line ∷ rest ↦ record q { lines = rest } ]
