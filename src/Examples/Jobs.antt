-- ===== src/Examples/Jobs.antt =====
-- A job over its life: server/postgres/executionQueue.js and server/distributedExecution.js.
use qase.Common.{true, false, none, some, List, [], ◌∷◌, ◌≡◌, refl, arith, filter}
use qase.Queue.{
  claim, refresh, is_retired, select_job, Job, Limits, leased, heartbeat, complete, fail,
}
use qase.Queue.Leases.{IsQueue, Transaction, claims, reaps, commit, commit-IsQueue}
use qase.Queue.Fencing.{commits, commits-refused}
use qase.Worker.{
  pass_gate, resume, settle, on_tick, on_answer, on_stopped, leased, unheld, lost, good, Event,
  tick, answered, stopped, replied, Setting,
}
use qase.Worker.Turns.{on_reply, step, run_from, run_once}
use qase.Worker.Fenced.{is_ended}

abbrev limits : Limits
limits = record {
  cancel_grace_ms = 5000;
  max_attempts = 3;
  retention_ms = 1000;
  max_active_jobs = 10;
}

abbrev job : Job
job = record {
  id = "j";
  run_id = "r";
  status = leased;
  attempts = 1;
  max_attempts = 3;
  lease = some (record { owner = "w"; token = "t"; expires_at = 100 });
  available_at = 1;
  created_at = 1;
  finished_at = none;
}

-- The lease has run out, and another worker claims the job.
abbrev takeover : Transaction
takeover = claims (λ id. false) (λ id. false) "v" "new" 5000

commit-IsQueue_example : IsQueue (commit limits (λ id. true) 200 takeover (job ∷ []))
commit-IsQueue_example =
    commit-IsQueue limits (λ id. true) 200 takeover (job ∷ []) (omega arith)
      (((refl, refl, omega arith), tt), (tt, tt))

abbrev taken : List Job
taken = commit limits (λ id. true) 200 takeover (job ∷ [])

commits-refused_example :
    let rows = commits limits (λ id. true) ((300, reaps) ∷ []) taken in
    (heartbeat limits (λ id. true) 400 "j" "t" "w" 5000 rows ≡ (none, rows))
    × (complete (λ id. true) 400 "j" "t" "w" rows ≡ (none, rows))
    × (fail (λ id. true) 400 "j" "t" "w" true rows ≡ (none, rows))
unfolding commit claim refresh filter is_retired select_job
commits-refused_example =
    commits-refused "t" limits (λ id. true) ((300, reaps) ∷ []) taken 400 "j" "w" 5000 true
      (refl, tt) (refl, tt)

abbrev setting : Setting
setting = record { has_vault = true; can_record = true; status = "interrupted" }

-- The interval finds the lease lost while the runtime starts.
abbrev lost_at_start : List Event
lost_at_start =
    answered leased
    ∷ replied good
    ∷ replied good
    ∷ answered leased
    ∷ replied good
    ∷ answered leased
    ∷ tick
    ∷ answered (unheld lost)
    ∷ stopped true
    ∷ replied good
    ∷ replied good
    ∷ replied good
    ∷ replied good
    ∷ replied good
    ∷ []

-- That run ends, and its turn was started after the lease was lost.
lost_at_start_ends : is_ended (run_once setting lost_at_start).point ≡ true
unfolding run_once run_from step on_tick on_answer settle resume pass_gate on_stopped on_reply
lost_at_start_ends = refl
