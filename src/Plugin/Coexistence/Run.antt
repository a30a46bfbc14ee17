-- ===== src/Plugin/Coexistence/Run.antt =====
-- coexistence.cpp: `run`. Each function is a part of it, from one handle to the next; a part that
-- goes to `done` ends in `finish`.
use lsfg_nx.Base.{
  ℕ, ◌%◌, ◌^◌, Bool, true, false, not, ◌&&◌, List, Option, none, some, ◌==◌, if◌then◌else◌,
}
use lsfg_nx.Outcome.{Outcome, done, ◌>>=◌}
use lsfg_nx.Plugin.Coexistence.{
  Stage, DkResult, ExternalLayout, Result, Deko, LayoutAnswer, Handle, Event, Machine, start, emit,
  enter, announce, expected_value,
}
use lsfg_nx.Plugin.Coexistence.Shader.{
  DkshHeader, read_shader_header, code_memory_size, reconstruct_external_layout,
}

-- The destruction of a handle that is not null.
abbrev destroy : Bool → Handle → Machine → Machine
destroy held handle m = if held then emit (Event.destroyed handle) m else m

-- What `run` returns, and what it has done.
abbrev pub Ending : Type 0
Ending = Result × List Event

abbrev keep_arena : Deko → Machine → Machine
keep_arena dk m = record m { result = record m.result { arena_bytes = dk.arena_used } }

-- From `done` on.
abbrev pub finish : Deko → Machine → Ending
finish dk m =
    let m1 = emit (Event.notified Stage.cleanup) (keep_arena dk m) in
    let m2 = destroy m.commands Handle.commands m1 in
    let m3 = destroy m.command_memory Handle.command_memory m2 in
    let m4 = destroy m.result_memory Handle.result_memory m3 in
    let m5 = destroy m.code_memory Handle.code_memory m4 in
    let m6 = destroy m.queue Handle.queue m5 in
    let m7 = destroy m.device Handle.device m6 in (m7.result, m7.events)

-- The return without cleaning up.
abbrev pub abandon : Deko → Stage → Machine → Ending
abandon dk stage m = let m1 = keep_arena dk (announce stage m) in (m1.result, m1.events)

-- After the fence.
abbrev judge : Deko → Machine → Machine
judge dk m =
    let passed = dk.output == expected_value && m.result.layout_passed in
    record m {
      result = record m.result {
        value = dk.output;
        passed = passed;
        stage = if passed then Stage.verified else Stage.completed;
      };
    }

unfoldable pub wait_for : Deko → DkResult → Machine → Ending
wait_for dk DkResult.success m = if dk.queue_error then finish dk m else finish dk (judge dk m)
wait_for dk DkResult.timeout m = abandon dk Stage.timed_out m
wait_for dk DkResult.bad_input m = abandon dk Stage.wait_failed m
wait_for dk DkResult.out_of_memory m = abandon dk Stage.wait_failed m
wait_for dk DkResult.fail m = abandon dk Stage.wait_failed m

unfoldable pub submit : Deko → Machine → Ending
submit dk m =
    let listed = enter Stage.command_list m in
    let sent = announce Stage.waiting (announce Stage.submitted (emit Event.sent listed)) in
    if dk.list_made then wait_for dk dk.wait sent else finish dk listed

unfoldable pub create_commands : Deko → Machine → Ending
create_commands dk m =
    let entered = enter Stage.command_buffer m in
    if dk.commands_made
    then submit dk (record (emit (Event.created Handle.commands) entered) { commands = true })
    else finish dk entered

unfoldable pub create_command_memory : Deko → Machine → Ending
create_command_memory dk m =
    let entered = enter Stage.command_memory m in
    if dk.command_memory_made
    then create_commands dk
        (record (emit (Event.created Handle.command_memory) entered) { command_memory = true })
    else finish dk entered

unfoldable pub create_result_memory : Deko → Machine → Ending
create_result_memory dk m =
    let entered = enter Stage.result_memory m in
    let made = record (emit (Event.created Handle.result_memory) entered) {
      result_memory = true;
    } in
    if not dk.result_memory_made
    then finish dk entered
    else if dk.result_mapped
    then create_command_memory dk made
    else finish dk made

unfoldable pub create_code_memory : Deko → Machine → Ending
create_code_memory dk m =
    let entered = enter Stage.code_memory m in
    let made = record (emit (Event.created Handle.code_memory) entered) { code_memory = true } in
    let shaded = enter Stage.shader made in
    if not dk.code_memory_made
    then finish dk entered
    else if dk.shader_valid
    then create_result_memory dk shaded
    else finish dk shaded

unfoldable pub create_queue : Deko → Machine → Ending
create_queue dk m =
    let entered = announce Stage.queue m in
    if dk.queue_made
    then create_code_memory dk (record (emit (Event.created Handle.queue) entered) { queue = true })
    else finish dk entered

abbrev is_success : DkResult → Bool
is_success DkResult.success = true
is_success DkResult.timeout = false
is_success DkResult.bad_input = false
is_success DkResult.out_of_memory = false
is_success DkResult.fail = false

-- The answer of the library, with the test of it against the game's texture.
unfoldable pub judge_layout : ExternalLayout → LayoutAnswer → Result → Result
judge_layout external answer result = record result {
  stage = Stage.external_layout;
  layout_result = answer.result;
  layout_size = answer.size;
  layout_alignment = answer.alignment;
  layout_kind = answer.kind;
  layout_passed =
      is_success answer.result
      && answer.size == external.storage_size
      && answer.alignment == external.storage_alignment
      && answer.kind == external.storage_class % 2 ^ 8;
}

unfoldable pub check_layout : Deko → ExternalLayout → Machine → Ending
check_layout dk external m =
    let judged = record m {
      result = judge_layout external (reconstruct_external_layout dk external) m.result;
    } in
    if judged.result.layout_passed then create_queue dk judged else finish dk judged

unfoldable pub create_device : Deko → ExternalLayout → Machine → Ending
create_device dk external m =
    let entered = announce Stage.device m in
    if dk.device_made
    then check_layout dk external
        (record (emit (Event.created Handle.device) entered) { device = true })
    else finish dk entered

unfoldable pub open_session : Deko → ExternalLayout → Machine → Ending
open_session dk external m =
    let entered = announce Stage.nvdrv_session m in
    if dk.captured
    then create_device dk external entered
    else finish dk
        (record entered { result = record entered.result { value = dk.capture_result % 2 ^ 32 } })

-- After the header is read.
unfoldable pub begin : Deko → ExternalLayout → Option (DkshHeader × ℕ) → Ending
begin dk external none = finish dk start
begin dk external (some (header, scratch)) =
    if code_memory_size dk header == 0 then finish dk start else open_session dk external start

unfoldable pub run : Deko → List ℕ → ExternalLayout → Outcome Ending
run dk shader external = read_shader_header dk shader >>= λ read. done (begin dk external read)
