-- ===== src/Store/Timing.antt =====
-- server/store.js: the times of a session, which `setStatus` sets through `applyStatusTiming`, and its active
-- duration; `failureReason` is left out. Times are in milliseconds, and so is the time paused, which the code keeps in seconds.
pub mod Clock
use qase.Common.{ℕ, ◌+◌, ◌-◌, ◌/◌, Option, none, some, List, [], ◌∷◌, get_or, or_else}

pub data Status : Type 0 where
  idle queued running awaiting_input done error interrupted : Status

pub record Timing : Type 0 where
  pub queued_at : Option ℕ
  pub started_at : Option ℕ
  pub setup_started_at : Option ℕ
  pub setup_ended_at : Option ℕ
  pub completed_at : Option ℕ
  pub paused_at : Option ℕ
  -- `pausedSeconds ?? 0`, in milliseconds
  pub paused : ℕ
  pub report_started_at : Option ℕ
  pub report_ended_at : Option ℕ

abbrev pub untimed : Timing
untimed = record {
  queued_at = none;
  started_at = none;
  setup_started_at = none;
  setup_ended_at = none;
  completed_at = none;
  paused_at = none;
  paused = 0;
  report_started_at = none;
  report_ended_at = none;
}

-- `if (session.x === undefined) session.x = now`
abbrev pub once : ℕ → Option ℕ → Option ℕ
once now o = or_else o (some now)

-- How long a pause has lasted that began at a time, if one did.
abbrev pub since : ℕ → Option ℕ → ℕ
since now none = 0
since now (some t) = now - t

-- A pause that is open is closed.
pub close_pause : ℕ → Timing → Timing
close_pause now t = record t { paused = t.paused + since now t.paused_at; paused_at = none }

-- The environment's setup starts with the run.
abbrev start_at : ℕ → Option ℕ → Option ℕ → Option ℕ
start_at now none setup = some now
start_at now (some t) setup = setup

pub start_run : ℕ → Timing → Timing
unfolding start_at
start_run now t = record t {
  started_at = once now t.started_at;
  setup_started_at = start_at now t.started_at t.setup_started_at;
}

-- `reportEndedAt`, where a report has been started
abbrev end_report : ℕ → Option ℕ → Option ℕ → Option ℕ
end_report now none ended = ended
end_report now (some t) ended = once now ended

abbrev pub complete : ℕ → Timing → Timing
complete now t = record t { completed_at = once now t.completed_at }

-- A pause begins only in a run that has started and has not completed.
abbrev pause_at : ℕ → Option ℕ → Option ℕ → Option ℕ → Option ℕ
pause_at now (some s) none paused = once now paused
pause_at now none none paused = paused
pause_at now none (some c) paused = paused
pause_at now (some s) (some c) paused = paused

unfoldable pub pause : ℕ → Timing → Timing
pause now t = record t { paused_at = pause_at now t.started_at t.completed_at t.paused_at }

-- `applyStatusTiming`
unfoldable pub apply_status_timing : ℕ → Status → Timing → Timing
unfolding close_pause start_run pause
apply_status_timing now queued t = record t { queued_at = once now t.queued_at }
apply_status_timing now running t = close_pause now (start_run now t)
apply_status_timing now done t = record (complete now (close_pause now t)) {
  report_ended_at = end_report now t.report_started_at t.report_ended_at;
}
apply_status_timing now error t = complete now (close_pause now t)
apply_status_timing now interrupted t = pause now t
apply_status_timing now idle t = pause now t
apply_status_timing now awaiting_input t = t

-- `markReportPhase`
pub mark_report_start : ℕ → Timing → Timing
mark_report_start now t = record t { report_started_at = once now t.report_started_at }

pub mark_report_end : ℕ → Timing → Timing
mark_report_end now t = record t {
  report_ended_at = end_report now t.report_started_at t.report_ended_at;
}

-- `markExecutionStarted`
pub mark_execution_started : ℕ → Timing → Timing
mark_execution_started now t = record t {
  setup_ended_at = end_report now t.setup_started_at t.setup_ended_at;
}

-- From the start to the pause that is open, else the completion, else now, less the time paused.
unfoldable pub active_from : Option ℕ → Option ℕ → Option ℕ → ℕ → ℕ → Option ℕ
active_from none p c now paused = none
active_from (some s) p c now paused = some (get_or p (get_or c now) - s - paused)

-- The active time of a session, `undefined` before its start.
unfoldable pub active_time : ℕ → Timing → Option ℕ
active_time now t = active_from t.started_at t.paused_at t.completed_at now t.paused

abbrev in_seconds : Option ℕ → Option ℕ
in_seconds none = none
in_seconds (some ms) = some (ms / 1000)

-- `activeDurationSeconds`
pub active_duration_seconds : ℕ → Timing → Option ℕ
unfolding in_seconds
active_duration_seconds now t = in_seconds (active_time now t)
