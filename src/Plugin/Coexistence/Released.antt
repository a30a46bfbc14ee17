-- ===== src/Plugin/Coexistence/Released.antt =====
-- coexistence.cpp: what `run` creates it destroys, the last first.
use lsfg_nx.Base.{
  ℕ, ◌≡◌, ◌⊎◌, inl, inr, arith, refl, ap, Bool, true, false, not, ◌&&◌, List, [], ◌∷◌, Option, none,
  some, ◌==◌, if◌then◌else◌, if-either,
}
use lsfg_nx.Outcome.{done, ◌>>=◌}
use lsfg_nx.Plugin.Coexistence.Reads.{read_shader_header_total}
use lsfg_nx.Plugin.Coexistence.{
  Stage, DkResult, ExternalLayout, Result, Deko, Handle, Event, Machine, start, emit, announce,
  expected_value,
}
use lsfg_nx.Plugin.Coexistence.Shader.{DkshHeader, code_memory_size, reconstruct_external_layout}
use lsfg_nx.Plugin.Coexistence.Run.{
  Ending, finish, wait_for, submit, create_commands, create_command_memory, create_result_memory,
  create_code_memory, create_queue, judge_layout, check_layout, create_device, open_session, begin,
  run,
}

abbrev number : Handle → ℕ
number Handle.device = 0
number Handle.queue = 1
number Handle.code_memory = 2
number Handle.result_memory = 3
number Handle.command_memory = 4
number Handle.commands = 5

abbrev pop : Handle → List Handle → Option (List Handle)
pop h [] = none
pop h (g ∷ held) = if number h == number g then some held else none

-- The handles that are held after some events, the last first; `none` where one is destroyed that is
-- not the last.
unfoldable pub replay : List Event → List Handle → Option (List Handle)
replay [] held = some held
replay (Event.created h ∷ events) held = replay events (h ∷ held)
replay (Event.destroyed h ∷ events) held = elim (pop h held) [
  | none ↦ none
  | some rest ↦ replay events rest
]
replay (Event.notified stage ∷ events) held = replay events held
replay (Event.sent ∷ events) held = replay events held

abbrev all_handles : List Handle
all_handles =
    Handle.commands ∷ Handle.command_memory ∷ Handle.result_memory ∷ Handle.code_memory
    ∷ Handle.queue ∷ Handle.device ∷ []

-- What a run leaves: everything where the device may still be at work, and else nothing.
abbrev pub left_over : Stage → List Handle
left_over Stage.timed_out = all_handles
left_over Stage.wait_failed = all_handles
left_over stage = []

-- A trial passes only where the value and the layout are those expected.
abbrev pub Verdict : Result → Type 0
Verdict r =
    (r.passed ≡ false)
    ⊎ ((r.stage ≡ Stage.verified) × (r.value ≡ expected_value) × (r.layout_passed ≡ true))

abbrev pub Released : Ending → Type 0
Released ending = (replay ending.1 [] ≡ some (left_over ending.0.stage)) × Verdict ending.0

passes : (v : ℕ) (b : Bool) → (v == expected_value && b) ≡ true → (v ≡ expected_value) × (b ≡ true)
passes v b h = ground arith

-- The variables of `run` once the device, and the handles after it, are made.
abbrev with_device : Result → Machine
with_device r = record start {
  result = r;
  device = true;
  events =
      Event.notified Stage.nvdrv_session
      ∷ Event.notified Stage.device
      ∷ Event.created Handle.device
      ∷ [];
}

abbrev with_queue : Result → Machine
with_queue r =
    record (emit (Event.created Handle.queue) (emit (Event.notified Stage.queue) (with_device r))) {
      queue = true;
    }

abbrev with_code : Result → Machine
with_code r = record (emit (Event.created Handle.code_memory) (with_queue r)) { code_memory = true }

abbrev with_result : Result → Machine
with_result r = record (emit (Event.created Handle.result_memory) (with_code r)) {
  result_memory = true;
}

abbrev with_command_memory : Result → Machine
with_command_memory r = record (emit (Event.created Handle.command_memory) (with_result r)) {
  command_memory = true;
}

abbrev with_commands : Result → Machine
with_commands r = record (emit (Event.created Handle.commands) (with_command_memory r)) {
  commands = true;
}

abbrev waiting_machine : Result → Machine
waiting_machine r =
    announce Stage.waiting (announce Stage.submitted (emit Event.sent (with_commands r)))

module _ (dk : Deko) where
  judged-Released :
      (r : Result) (v : ℕ) (b : Bool)
      → (b ≡ true → (v ≡ expected_value) × (r.layout_passed ≡ true))
      → Released (
          finish dk (record (waiting_machine r) {
            result = record r {
              value = v;
              passed = b;
              stage = if b then Stage.verified else Stage.completed;
            };
          }))
  unfolding replay
  judged-Released r v true f = (refl, inr (refl, (f refl).0, (f refl).1))
  judged-Released r v false f = (refl, inl refl)

  wait_for-Released :
      (r : Result) (w : DkResult) → r.passed ≡ false → Released (wait_for dk w (waiting_machine r))
  unfolding wait_for replay
  wait_for-Released r DkResult.success p =
      if-either Released dk.queue_error _ _ (λ _. (refl, inl p))
        (λ _.
          judged-Released r dk.output (dk.output == expected_value && r.layout_passed)
            (passes dk.output r.layout_passed))
  wait_for-Released r DkResult.timeout p = (refl, inl p)
  wait_for-Released r DkResult.bad_input p = (refl, inl p)
  wait_for-Released r DkResult.out_of_memory p = (refl, inl p)
  wait_for-Released r DkResult.fail p = (refl, inl p)

  submit-Released : (r : Result) → r.passed ≡ false → Released (submit dk (with_commands r))
  unfolding submit replay
  submit-Released r p =
      if-either Released dk.list_made _ _ (λ _. wait_for-Released r dk.wait p) (λ _. (refl, inl p))

  create_commands-Released :
      (r : Result) → r.passed ≡ false → Released (create_commands dk (with_command_memory r))
  unfolding create_commands replay
  create_commands-Released r p =
      if-either Released dk.commands_made _ _ (λ _. submit-Released _ p) (λ _. (refl, inl p))

  create_command_memory-Released :
      (r : Result) → r.passed ≡ false → Released (create_command_memory dk (with_result r))
  unfolding create_command_memory replay
  create_command_memory-Released r p =
      if-either Released dk.command_memory_made _ _ (λ _. create_commands-Released _ p)
        (λ _. (refl, inl p))

  create_result_memory-Released :
      (r : Result) → r.passed ≡ false → Released (create_result_memory dk (with_code r))
  unfolding create_result_memory replay
  create_result_memory-Released r p =
      if-either Released (not dk.result_memory_made) _ _ (λ _. (refl, inl p))
        (λ _.
          if-either Released dk.result_mapped _ _ (λ _. create_command_memory-Released _ p)
            (λ _. (refl, inl p)))

  create_code_memory-Released :
      (r : Result) → r.passed ≡ false → Released (create_code_memory dk (with_queue r))
  unfolding create_code_memory replay
  create_code_memory-Released r p =
      if-either Released (not dk.code_memory_made) _ _ (λ _. (refl, inl p))
        (λ _.
          if-either Released dk.shader_valid _ _ (λ _. create_result_memory-Released _ p)
            (λ _. (refl, inl p)))

  create_queue-Released :
      (r : Result) → r.passed ≡ false → Released (create_queue dk (with_device r))
  unfolding create_queue replay
  create_queue-Released r p =
      if-either Released dk.queue_made _ _ (λ _. create_code_memory-Released _ p)
        (λ _. (refl, inl p))

  module _ (external : ExternalLayout) where
    check_layout-Released :
        (r : Result) → r.passed ≡ false → Released (check_layout dk external (with_device r))
    unfolding check_layout judge_layout replay
    check_layout-Released r p =
        let j = judge_layout external (reconstruct_external_layout dk external) r in
        if-either Released j.layout_passed _ _ (λ _. create_queue-Released j p) (λ _. (refl, inl p))

    open_session-Released : Released (open_session dk external start)
    unfolding open_session create_device replay
    open_session-Released =
        if-either Released dk.captured _ _
          (λ _.
            if-either Released dk.device_made _ _ (λ _. check_layout-Released _ refl)
              (λ _. (refl, inl refl)))
          (λ _. (refl, inl refl))

    start-Released : Released (finish dk start)
    unfolding replay
    start-Released = (refl, inl refl)

    begin-Released : (read : Option (DkshHeader × ℕ)) → Released (begin dk external read)
    unfolding begin
    begin-Released none = start-Released
    begin-Released (some (header, scratch)) =
        if-either Released (code_memory_size dk header == 0) _ _ (λ _. start-Released)
          (λ _. open_session-Released)

-- A run returns, whatever the library answers and whatever the bytes of the shader are. By then it has
-- destroyed every handle that it created, the last first, but for a wait
-- that does not end well: there it leaves all six, since the device may still use them. It says that
-- the trial passed only at the stage `verified`, with the expected value and layout.
pub run-Released :
    (dk : Deko) (shader : List ℕ) (external : ExternalLayout)
    → (ending : Ending) × (run dk shader external ≡ done ending) × Released ending
unfolding run
run-Released dk shader external =
    let (read, e) = read_shader_header_total dk shader in
    (
      begin dk external read,
      ap (λ m. m >>= λ read. done (begin dk external read)) e,
      begin-Released dk external read,
    )
