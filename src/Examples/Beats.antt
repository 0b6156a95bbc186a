-- ===== src/Examples/Beats.antt =====
-- The heartbeat of server/cellHeartbeat.js after two failures.
use qase.Common.{true, false, none, refl}
use qase.Heartbeat.{State, succeeds, fails, Attempt, run_once}
use qase.Heartbeat.Backoff.{Ended, run_once-Ended}

abbrev failing : State
failing = record {
  running = false;
  stopping = false;
  last_attempt_at = 60000;
  last_success_at = 30000;
  consecutive_failures = 2;
  registered = true;
}

abbrev attempt : Attempt
attempt = record {
  registration = succeeds;
  metrics = succeeds;
  heartbeat = fails none;
  begun_at = 90000;
  finished_at = 90100;
}

run_once-Ended_example : Ended 90100 failing (run_once false attempt failing)
run_once-Ended_example = run_once-Ended false attempt failing refl refl
