-- ===== src/Cache/Wraps.antt =====
-- cache_format.cpp: a pass whose first slot makes the 32-bit sum of the guard wrap.
use lsfg_nx.Base.{◌-◌, ◌^◌, ◌≤◌, ◌<◌, ◌≡◌, arith, List, length, get_elem?-beyond}
use lsfg_nx.Check.{go, fault, ◌>>◌, read, for_range}
use lsfg_nx.Check.Laws.{for_range-first}
use lsfg_nx.Graph.{add32}
use lsfg_nx.Cache.{PassEntry, SlotEntry}
use lsfg_nx.Cache.Validate.{check_slot, check_pass, validate_pass}
use lsfg_nx.Cache.Accepts.{PassOk, validate_pass_iff}

-- A pass that is in order but whose first slot lies past the list, so far that the 32-bit sum with
-- the count wraps to at most the length of the list, passes the guard, and its first slot is read
-- outside the list.
pub check_pass-fault :
    (slots : List SlotEntry) (entry : PassEntry)
    → PassOk entry
    → entry.slot_first < 2 ^ 32
    → length slots ≤ entry.slot_first
    → add32 entry.slot_first entry.slot_count ≤ length slots
    → check_pass slots entry ≡ fault
unfolding check_pass
check_pass-fault slots entry a w beyond wraps =
    let ok : validate_pass entry ≡ go = (validate_pass_iff entry).1 a in
    let first : for_range 0 entry.slot_count
          (λ index. read slots (add32 entry.slot_first index) (check_slot entry))
        ≡ (read slots (add32 entry.slot_first 0) (check_slot entry)
            >> for_range 1 (entry.slot_count - 1)
                (λ index. read slots (add32 entry.slot_first index) (check_slot entry))) =
      for_range-first 0 entry.slot_count _ a.some_slot in
    let plain : add32 entry.slot_first 0 ≡ entry.slot_first = omega arith in
    ground (arith, ok, first, plain, get_elem?-beyond slots entry.slot_first beyond)
