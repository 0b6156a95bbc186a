-- ===== src/Examples/Stored.antt =====
-- A session over its life and a restart, and a backlog of two findings: server/store.js.
use qase.Common.{
  ℕ, String, false, none, some, List, [], ◌∷◌, ◌≡◌, refl, arith, length, All, ◌-◌, ◌&&◌, ◌||◌, ◌==◌,
  not, leb, get_or, contains, includes, take,
}
use qase.Common.Result.{ok}
use qase.Store.Timing.{
  Status, queued, running, interrupted, done, untimed, active_time, apply_status_timing,
}
use qase.Store.Timing.Clock.{
  run_events, watch_events, new_watch, watch_time, active_time-run_events,
}
use qase.Store.Boot.{Stored, Host, load_session}
use qase.Store.Boot.Settled.{resume_view, is_resumable-load_session, load_session-counts_on}
use qase.Resume.{is_resumable, max_attempts}
use qase.Store.Findings.{Finding, normalize_finding_status, is_finding_status}
use qase.Store.Findings.Backlog.{
  Run, Query, Row, aggregate_session_findings, collect, rows_of, takes_run, takes_finding,
  sort_rows, insert_row, comes_first, bounded,
}
use qase.Store.Findings.Backlog.Rows.{IsOrdered, IsAsked, aggregate_session_findings-IsAsked}
use qase.Common.{◌≤◌}

abbrev events : List (ℕ × Status)
events = (1, queued) ∷ (10, running) ∷ (40, interrupted) ∷ (100, running) ∷ (160, done) ∷ []

active_time-run_events_example :
    get_or (active_time 900 (run_events events untimed)) 0
    ≡ watch_time 900 (watch_events events new_watch)
active_time-run_events_example =
    active_time-run_events 900 events
      (omega arith, (omega arith, (omega arith, (omega arith, (omega arith, tt))))) (omega arith)

abbrev host : Host ℕ ℕ
host = record {
  normalize_sqa = λ s. s;
  normalize_founder = λ s. s;
  is_device = λ d. d == "desktop";
  default_device = "desktop";
  default_owner = "owner";
  secret_names = λ id. [];
}

abbrev stored : Stored ℕ ℕ
stored = record {
  id = "a";
  mode = none;
  sqa = none;
  founder = none;
  device = none;
  landscape = false;
  owner = none;
  status = "running";
  pending_question = false;
  interrupted_from_run = false;
  activities = [];
  secret_names = [];
  auto_resume_count = some 1;
  messages = "thinking" ∷ [];
  findings = [];
  timing = record untimed { started_at = some 10 };
}

is_resumable-load_session_example :
    is_resumable (resume_view false false false (load_session host 50 stored))
    ≡ ((stored.status == "running")
        || ((stored.status == "interrupted") && stored.interrupted_from_run))
      && not (leb max_attempts (get_or stored.auto_resume_count 0))
is_resumable-load_session_example = is_resumable-load_session host 50 stored

load_session-counts_on_example :
    (active_time 900 (load_session host 50 stored).timing ≡ some (900 - 10 - 0))
    × (active_time 900 (apply_status_timing 50 interrupted stored.timing) ≡ some (50 - 10 - 0))
load_session-counts_on_example = load_session-counts_on host 50 900 10 stored refl refl refl

abbrev finding : String → String → ℕ → Finding
finding id severity ts = record {
  id = id;
  title = 70 ∷ [];
  category = [];
  url = [];
  severity = severity;
  status = none;
  status_ts = none;
  status_note = none;
  ts = some ts;
}

abbrev backlog : List Run
backlog =
    record {
      id = "r";
      owner = "u";
      mode = "qa";
      findings = finding "f" "low" 3 ∷ finding "g" "high" 2 ∷ [];
    }
    ∷ []

abbrev query : Query
query = record {
  owner = some "u";
  status = none;
  severity = none;
  run_id = none;
  needle = none;
  limit = none;
}

abbrev shown : List Row
shown =
    record {
      run_id = "r";
      finding = record (finding "g" "high" 2) {
        status = some "open";
        status_ts = some 2;
        status_note = some [];
      };
    }
    ∷ record {
      run_id = "r";
      finding = record (finding "f" "low" 3) {
        status = some "open";
        status_ts = some 3;
        status_note = some [];
      };
    }
    ∷ []

shown_rows : aggregate_session_findings (λ t. t) 9 query backlog ≡ ok shown
unfolding aggregate_session_findings collect rows_of takes_run takes_finding
    normalize_finding_status is_finding_status contains includes sort_rows insert_row comes_first
    bounded take
shown_rows = refl

aggregate_session_findings-IsAsked_example :
    IsOrdered shown × (length shown ≤ 500) × All (λ row. IsAsked (λ t. t) 9 query backlog row) shown
aggregate_session_findings-IsAsked_example =
    aggregate_session_findings-IsAsked (λ t. t) 9 query backlog shown shown_rows
