-- ===== src/Worker/Turns.antt =====
-- server/distributedExecution.js: how `runOnce` goes on when a call ends, and its runs over any events.
use qase.Common.{true, false, Bool, List, [], ◌∷◌, ◌&&◌, ◌||◌, if◌then◌else◌}
use qase.Store.Boot.{is_settled}
use qase.Worker.{
  Entry, complete, read_run, read_values, run_turn, add_error_message, set_error, clear_secrets,
  clear_vault, purge_artifacts, record_cleanup, quiet, first, second, third, Point, awaiting,
  reading_run, reading_values, storing, starting, running, draining, completing, failing,
  looking_up, messaging, marking, draining_at_end, last_lookup, cleaning, recording, ended, Reply,
  good, other, threw, Event, tick, answered, stopped, replied, Setting, State, send, check,
  finish_work, finish_all, catch_error, on_tick, on_answer, on_stopped,
}

-- The run is there: the credentials are read, or there are none.
abbrev pub on_session : Setting → State → State
on_session c s = if c.has_vault then send read_values reading_values s else check third s

abbrev pub add_if : Bool → Entry → List Entry → List Entry
add_if b e log = if b then e ∷ log else log

-- The three calls of the cleanup, of which two are conditional.
abbrev pub clean : Setting → Bool → State → State
clean c deleted s = record s {
  point = cleaning;
  run_deleted = deleted;
  log = add_if deleted purge_artifacts (
      add_if (c.has_vault && (deleted || (s.has_session && is_settled c.status))) clear_vault
        (clear_secrets ∷ s.log));
}

abbrev pub is_failed : Reply → Bool
is_failed threw = true
is_failed good = false
is_failed other = false

abbrev pub recorded : Setting → Reply → State → State
recorded c r s =
    if s.run_deleted && c.can_record
    then send (record_cleanup (is_failed r)) recording s
    else record s { point = ended }

-- A call ends that `runOnce` waits for.
unfoldable pub on_reply : Setting → Point → Reply → State → State
on_reply c reading_run good s = on_session c (record s { has_session = true })
on_reply c reading_run other s = send complete completing s
on_reply c reading_values good s = check second s
on_reply c reading_values other s = check second s
on_reply c storing good s = check third s
on_reply c storing other s = check third s
on_reply c starting good s = send run_turn running s
on_reply c starting other s = send run_turn running s
on_reply c running good s = finish_work s
on_reply c running other s = finish_work s
on_reply c completing good s = finish_all s
on_reply c completing other s = finish_all s
on_reply c reading_run threw s = catch_error s
on_reply c reading_values threw s = catch_error s
on_reply c storing threw s = catch_error s
on_reply c starting threw s = catch_error s
on_reply c running threw s = catch_error s
on_reply c completing threw s = catch_error s
on_reply c failing good s = if s.has_session then send read_run looking_up s else finish_all s
on_reply c failing other s = finish_all s
on_reply c failing threw s = finish_all s
on_reply c looking_up good s = send add_error_message messaging s
on_reply c looking_up other s = finish_all s
on_reply c looking_up threw s = finish_all s
on_reply c messaging good s = send set_error marking s
on_reply c messaging other s = send set_error marking s
on_reply c messaging threw s = finish_all s
on_reply c marking r s = finish_all s
on_reply c last_lookup good s = clean c false s
on_reply c last_lookup other s = clean c true s
on_reply c last_lookup threw s = clean c false s
on_reply c cleaning r s = recorded c r s
on_reply c recording r s = record s { point = ended }
on_reply c ended r s = s
on_reply c draining r s = s
on_reply c draining_at_end r s = s
on_reply c (awaiting g) r s = s

-- An event that nothing waits for changes nothing.
unfoldable pub step : Setting → Event → State → State
unfolding on_tick on_answer on_stopped on_reply
step c tick s = on_tick s
step c (answered p) s = on_answer s.beat p s
step c (stopped ok) s = on_stopped s.beat ok s
step c (replied r) s = on_reply c s.point r s

-- `runOnce` after its claim, up to its first wait.
abbrev pub start : State
start = check first (record {
  point = awaiting first;
  beat = quiet;
  execution_finished = false;
  stop_completed = false;
  has_session = false;
  run_deleted = false;
  log = [];
})

unfoldable pub run_from : Setting → State → List Event → State
unfolding step
run_from c s [] = s
run_from c s (e ∷ es) = run_from c (step c e s) es

-- `runOnce`, as far as the events have brought it.
unfoldable pub run_once : Setting → List Event → State
run_once c es = run_from c start es
