-- ===== src/Protocol/Ring.antt =====
-- protocol.cpp: the report ring behaves as a bounded queue of lines.
use lsfg_nx.Base.{
  Bool, ℕ, zero, suc, ◌+◌, ◌-◌, ◌%◌, ◌^◌, ◌≤◌, ◌<◌, ◌≡◌, refl, ap, ◌∙◌, ◌≢◌, arith, List, [], ◌∷◌,
  ◌++◌, min, length, take, set, length-set, get_or-set_self, get_or-set_ne, All, All-set,
  All-get_or, All-replicate, take-take_append, length-overwrite, take-min_length,
}
use lsfg_nx.Protocol.{
  ReportSlot, ReportBlock, report_slot_count, report_line_capacity, fill_slot, slot_at,
  initialize_reports, push_report, peek_report, consume_report, empty_slot,
}
use lsfg_nx.Protocol.Queue
use lsfg_nx.Protocol.Queue.{Queue}

-- Every slot has its full text array and a length within it.
abbrev pub SlotFits : ReportSlot → Type 0
SlotFits slot = (length slot.text ≡ report_line_capacity) × (slot.length ≤ report_line_capacity)

pub record IsValid (r : ReportBlock) : Type 0 where
  pub slots_count : length r.slots ≡ report_slot_count
  pub slots_fit : All SlotFits r.slots
  pub ordered : r.read_sequence ≤ r.write_sequence
  pub bounded : r.write_sequence ≤ r.read_sequence + report_slot_count
  pub word : r.write_sequence < 2 ^ 64

abbrev pub line : ReportSlot → List ℕ
line slot = take slot.length slot.text

-- The lines of `n` sequence numbers from `s` on.
abbrev pub window : List ReportSlot → ℕ → ℕ → List (List ℕ)
window slots s zero = []
window slots s (suc n) = line (slot_at slots s) ∷ window slots (suc s) n

abbrev pub view : ReportBlock → Queue
view r = record {
  lines = window r.slots r.read_sequence (r.write_sequence - r.read_sequence);
  dropped = r.dropped;
}

length-window : (slots : List ReportSlot) (s n : ℕ) → length (window slots s n) ≡ n
length-window slots s zero = refl
length-window slots s (suc n) = ap suc (length-window slots (suc s) n)

window_empty : (slots : List ReportSlot) (s n : ℕ) → n ≡ 0 → window slots s n ≡ []
window_empty slots s n e = rw e

window_first :
    (slots : List ReportSlot) (s n : ℕ)
    → n ≢ 0
    → window slots s n ≡ line (slot_at slots s) ∷ window slots (suc s) (n - 1)
window_first slots s zero h = absurd (h refl)
window_first slots s (suc n) h = ap (λ k. window slots s (suc k)) (omega arith)

-- Writing the slot just past a window that leaves room extends it by that slot's line.
window-set :
    (slots : List ReportSlot) (v : ReportSlot) (w n s : ℕ)
    → length slots ≡ report_slot_count
    → s + n ≡ w
    → n < report_slot_count
    → window (set slots (w % report_slot_count) v) s (suc n) ≡ window slots s n ++ (line v ∷ [])
window-set slots v w zero s len e h =
    let q : s ≡ w = omega arith in
    rw q (rw (get_or-set_self slots (w % report_slot_count) v empty_slot (omega arith)))
window-set slots v w (suc n) s len e h =
    let other : w % report_slot_count ≢ s % report_slot_count = omega arith in
    rw (
      get_or-set_ne slots v empty_slot other,
      window-set slots v w n (suc s) len (omega arith) (omega arith),
    )

empty_slot-SlotFits : SlotFits empty_slot
empty_slot-SlotFits = omega arith

slot_at-SlotFits : (r : ReportBlock) (s : ℕ) → IsValid r → SlotFits (slot_at r.slots s)
slot_at-SlotFits r s v =
    All-get_or SlotFits r.slots (s % report_slot_count) empty_slot v.slots_fit empty_slot-SlotFits

fill_slot-SlotFits :
    (slot : ReportSlot) (text : List ℕ) → SlotFits slot → SlotFits (fill_slot slot text)
fill_slot-SlotFits slot text f =
    omega (arith, length-overwrite (min (length text) (length slot.text)) text slot.text)

line-fill_slot :
    (slot : ReportSlot) (text : List ℕ)
    → SlotFits slot
    → line (fill_slot slot text) ≡ take report_line_capacity text
line-fill_slot slot text f =
    take-take_append (min (length text) (length slot.text)) text _ (omega arith)
    ∙ rw f.0 (take-min_length report_line_capacity text)

-- A fresh ring is valid and holds no line.
pub initialize_reports-IsValid :
    IsValid initialize_reports × (view initialize_reports ≡ record { lines = []; dropped = 0 })
unfolding initialize_reports
initialize_reports-IsValid = (
  record {
    slots_count = refl;
    slots_fit = All-replicate SlotFits report_slot_count empty_slot empty_slot-SlotFits;
    ordered = omega arith;
    bounded = omega arith;
    word = omega arith;
  },
  refl,
)

module _ {r : ReportBlock} (v : IsValid r) (room : r.write_sequence + 1 < 2 ^ 64) where
  pub push_report-IsValid : (text : List ℕ) → IsValid (push_report r text).0
  unfolding push_report
  push_report-IsValid text =
      let w = r.write_sequence % report_slot_count in
      let slot = fill_slot (slot_at r.slots r.write_sequence) text in
      ground (
        arith,
        length-set r.slots w slot,
        All-set SlotFits r.slots w slot v.slots_fit (
            fill_slot-SlotFits (slot_at r.slots r.write_sequence) text
              (slot_at-SlotFits r r.write_sequence v)),
      )

  -- `push_report` answers and changes the ring as the bounded queue of its lines does.
  pub push_report_refines :
      (text : List ℕ)
      → r.dropped + 1 < 2 ^ 64
      → let (r', done) = push_report r text in (view r', done) ≡ Queue.push (view r) text
  unfolding push_report Queue.push
  push_report_refines text count =
      let w = r.write_sequence in
      let n = w - r.read_sequence in
      let slot = slot_at r.slots w in
      ground (
        arith,
        length-window r.slots r.read_sequence n,
        line-fill_slot slot text (slot_at-SlotFits r w v),
        window-set r.slots (fill_slot slot text) w n r.read_sequence v.slots_count,
      )

pub peek_report_refines : {r : ReportBlock} → IsValid r → peek_report r ≡ Queue.peek (view r)
unfolding peek_report Queue.peek
peek_report_refines {r} v =
    let n = r.write_sequence - r.read_sequence in
    ground (
      arith,
      window_empty r.slots r.read_sequence n,
      window_first r.slots r.read_sequence n,
      slot_at-SlotFits r r.read_sequence v,
    )

pub consume_report_refines :
    {r : ReportBlock} → IsValid r → view (consume_report r) ≡ Queue.consume (view r)
unfolding consume_report Queue.consume
consume_report_refines {r} v =
    let n = r.write_sequence - r.read_sequence in
    ground (arith, window_empty r.slots r.read_sequence n, window_first r.slots r.read_sequence n)

pub consume_report-IsValid : {r : ReportBlock} → IsValid r → IsValid (consume_report r)
unfolding consume_report
consume_report-IsValid {r} v = ground arith

-- The calls of the two sides, and what each returns.
pub data Call : Type 0 where
  pushes : List ℕ → Call
  peeks consumes : Call

pub data Reply : Type 0 where
  pushed : Bool → Reply
  peeked : List ℕ → Reply
  done : Reply

unfoldable pub run : ReportBlock → List Call → List Reply
run r [] = []
run r (pushes text ∷ calls) = let (r', b) = push_report r text in pushed b ∷ run r' calls
run r (peeks ∷ calls) = peeked (peek_report r) ∷ run r calls
run r (consumes ∷ calls) = done ∷ run (consume_report r) calls

unfoldable pub run_queue : Queue → List Call → List Reply
run_queue q [] = []
run_queue q (pushes text ∷ calls) = let (q', b) = Queue.push q text in pushed b ∷ run_queue q' calls
run_queue q (peeks ∷ calls) = peeked (Queue.peek q) ∷ run_queue q calls
run_queue q (consumes ∷ calls) = done ∷ run_queue (Queue.consume q) calls

sequences-push :
    (r : ReportBlock) (text : List ℕ)
    → r.write_sequence + 1 < 2 ^ 64
    → r.dropped + 1 < 2 ^ 64
    → ((push_report r text).0.write_sequence ≤ r.write_sequence + 1)
      × ((push_report r text).0.dropped ≤ r.dropped + 1)
unfolding push_report
sequences-push r text h k = ground arith

sequences-consume :
    (r : ReportBlock)
    → ((consume_report r).write_sequence ≡ r.write_sequence)
      × ((consume_report r).dropped ≡ r.dropped)
unfolding consume_report
sequences-consume r = ground arith

-- No sequence of calls tells a valid report ring from the bounded queue of its lines, as long as
-- neither 64-bit counter can pass its end within the calls.
pub run_refines :
    (calls : List Call) {r : ReportBlock}
    → IsValid r
    → r.write_sequence + length calls < 2 ^ 64
    → r.dropped + length calls < 2 ^ 64
    → run r calls ≡ run_queue (view r) calls
unfolding run run_queue
run_refines [] v h k = refl
run_refines (pushes text ∷ calls) {r} v h k =
    let step = sequences-push r text (omega arith) (omega arith) in
    rw (
      run_refines calls (push_report-IsValid v (omega arith) text) (omega (arith, step))
          (omega (arith, step)),
      ← push_report_refines v (omega arith) text (omega arith),
    )
run_refines (peeks ∷ calls) {r} v h k =
    rw (run_refines calls v (omega arith) (omega arith), peek_report_refines v)
run_refines (consumes ∷ calls) {r} v h k =
    let step = sequences-consume r in
    rw (
      run_refines calls (consume_report-IsValid v) (omega (arith, step)) (omega (arith, step)),
      ← consume_report_refines v,
    )
