-- ===== src/Queue.antt =====
-- server/postgres/executionQueue.js: the queue of execution jobs of one tenant. A statement is a function on the rows
-- and a method one transaction, so that transactions are steps that follow each other; rows that another transaction
-- has locked when a job is selected are an argument, and so are the runs that are there and not deleted, and the rows that
-- a deletion leaves: those with a legal hold, that are locked, or past the first 1000. Identifiers are taken to have the
-- patterns that are checked, and codes of errors are left out. Times are in milliseconds.
pub mod Jobs
pub mod Leases
pub mod Fencing
use qase.Common.{
  ℕ, suc, ◌+◌, ◌-◌, ◌*◌, ◌^◌, String, Bool, true, false, not, Option, none, some, List, [], ◌∷◌,
  ◌++◌, ◌==◌, ◌&&◌, ◌||◌, leb, ltb, eqb, if◌then◌else◌, map, filter, count, any, min, max, is_some,
}
use qase.Common.Result.{Result, ok, err}

pub data JobStatus : Type 0 where
  queued leased cancel_requested succeeded failed cancelled : JobStatus

-- `lease_owner`, `lease_token` and `lease_expires_at`, which are set and cleared together
pub record Lease : Type 0 where
  pub owner : String
  pub token : String
  pub expires_at : ℕ

pub record Job : Type 0 where
  pub id : String
  pub run_id : String
  pub status : JobStatus
  pub attempts : ℕ
  pub max_attempts : ℕ
  pub lease : Option Lease
  pub available_at : ℕ
  pub created_at : ℕ
  pub finished_at : Option ℕ

pub record Limits : Type 0 where
  pub cancel_grace_ms : ℕ
  pub max_attempts : ℕ
  pub retention_ms : ℕ
  pub max_active_jobs : ℕ

abbrev pub is_active : JobStatus → Bool
is_active queued = true
is_active leased = true
is_active cancel_requested = true
is_active succeeded = false
is_active failed = false
is_active cancelled = false

abbrev pub is_queued : JobStatus → Bool
is_queued queued = true
is_queued _ = false

abbrev pub is_leased : JobStatus → Bool
is_leased leased = true
is_leased _ = false

abbrev pub is_cancelling : JobStatus → Bool
is_cancelling cancel_requested = true
is_cancelling _ = false

pub data Fault : Type 0 where
  run_not_available capacity_exceeded already_queued : Fault

-- A new row. At most one job of a run is active, by a unique index.
unfoldable pub enqueue :
    Limits → (String → Bool) → ℕ → String → String → List Job → Result Fault (List Job)
enqueue l alive now id run_id jobs =
    if not (alive run_id)
    then err run_not_available
    else if leb l.max_active_jobs (count (λ j. is_active j.status) jobs)
    then err capacity_exceeded
    else if any (λ j. (j.id == id) || (is_active j.status && (j.run_id == run_id))) jobs
    then err already_queued
    else ok (
        record {
          id = id;
          run_id = run_id;
          status = queued;
          attempts = 0;
          max_attempts = l.max_attempts;
          lease = none;
          available_at = now;
          created_at = now;
          finished_at = none;
        }
        ∷ jobs)

-- `lease_expires_at <= CURRENT_TIMESTAMP`, which is not true of a missing time
abbrev pub has_expired : ℕ → Option Lease → Bool
has_expired now none = false
has_expired now (some l) = leb l.expires_at now

abbrev pub ended_before : ℕ → Option ℕ → Bool
ended_before t none = false
ended_before t (some f) = ltb f t

-- The rows that the first statement of a claim deletes.
unfoldable pub is_retired : Limits → (Job → Bool) → ℕ → Job → Bool
is_retired l held now j =
    not (is_active j.status) && ended_before (now - l.retention_ms) j.finished_at && not (held j)

abbrev pub close : ℕ → JobStatus → Job → Job
close now s j = record j { status = s; finished_at = some now; lease = none }

-- The jobs of runs that are gone are cancelled.
abbrev pub cancel_gone : (String → Bool) → ℕ → Job → Job
cancel_gone alive now j =
    if is_active j.status && not (alive j.run_id) then close now cancelled j else j

-- A job whose lease has run out is queued again, while it has attempts left.
abbrev pub requeue : ℕ → Job → Job
requeue now j =
    if is_leased j.status && has_expired now j.lease && ltb j.attempts j.max_attempts
    then record j { status = queued; available_at = now; lease = none }
    else j

abbrev pub cancel_expired : ℕ → Job → Job
cancel_expired now j =
    if is_cancelling j.status && has_expired now j.lease then close now cancelled j else j

-- The three updates that a claim begins with.
unfoldable pub refresh : (String → Bool) → ℕ → Job → Job
refresh alive now j = cancel_expired now (requeue now (cancel_gone alive now j))

abbrev pub is_ready : (String → Bool) → ℕ → Job → Bool
is_ready locked now j =
    is_queued j.status
    && leb j.available_at now
    && ltb j.attempts j.max_attempts
    && not (locked j.id)

-- `ORDER BY available_at, created_at, id`, where rows of equal times stand in the order of their ids
abbrev pub precedes : Job → Job → Bool
precedes j k =
    ltb j.available_at k.available_at
    || (eqb j.available_at k.available_at && leb j.created_at k.created_at)

abbrev pub earlier : Job → Option Job → Option Job
earlier j none = some j
earlier j (some k) = if precedes j k then some j else some k

unfoldable pub select_job : (String → Bool) → ℕ → List Job → Option Job
select_job locked now [] = none
select_job locked now (j ∷ js) =
    let rest = select_job locked now js in if is_ready locked now j then earlier j rest else rest

-- `WHERE id = $1`
abbrev pub at_id : String → (Job → Job) → Job → Job
at_id id f j = if j.id == id then f j else j

abbrev pub lease_to : String → String → ℕ → Job → Job
lease_to owner token expires_at j = record j {
  status = leased;
  attempts = j.attempts + 1;
  lease = some (record { owner = owner; token = token; expires_at = expires_at });
}

abbrev pub claim_selected : String → String → ℕ → List Job → Option Job → Option Job × List Job
claim_selected owner token expires_at jobs none = (none, jobs)
claim_selected owner token expires_at jobs (some j) = (
  some (lease_to owner token expires_at j),
  map (at_id j.id (lease_to owner token expires_at)) jobs,
)

-- The rows as a claim finds them when it selects.
abbrev pub refreshed : Limits → (String → Bool) → (Job → Bool) → ℕ → List Job → List Job
refreshed l alive held now jobs =
    map (refresh alive now) (filter (λ j. not (is_retired l held now j)) jobs)

-- `claim`, with the new token
unfoldable pub claim :
    Limits
    → (String → Bool)
    → (Job → Bool)
    → (String → Bool)
    → ℕ
    → String
    → String
    → ℕ
    → List Job
    → Option Job × List Job
claim l alive held locked now owner token lease_ms jobs =
    let rows = refreshed l alive held now jobs in
    claim_selected owner token (now + lease_ms) rows (select_job locked now rows)

abbrev pub matches : ℕ → String → String → Option Lease → Bool
matches now token owner none = false
matches now token owner (some l) = (l.token == token) && (l.owner == owner) && ltb now l.expires_at

-- The row is the worker's: its id, its lease by token and owner, not expired, and an active status.
unfoldable pub is_held : ℕ → String → String → String → Job → Bool
is_held now id token owner j =
    (j.id == id)
    && (is_leased j.status || is_cancelling j.status)
    && matches now token owner j.lease

-- `result.rows[0]?.status` of an update of the rows that pass a test
unfoldable pub status_of : (Job → Bool) → (Job → Job) → List Job → Option JobStatus
status_of p f [] = none
status_of p f (j ∷ js) = let rest = status_of p f js in if p j then some (f j).status else rest

abbrev pub update_where : (Job → Bool) → (Job → Job) → List Job → Option JobStatus × List Job
update_where p f jobs = (status_of p f jobs, map (λ j. if p j then f j else j) jobs)

abbrev pub expire_by : ℕ → Option Lease → Option Lease
expire_by t none = none
expire_by t (some l) = some (record l { expires_at = min l.expires_at t })

abbrev pub expire_at : ℕ → Option Lease → Option Lease
expire_at t none = none
expire_at t (some l) = some (record l { expires_at = t })

-- A heartbeat extends a lease, unless the run is gone, when it asks for the cancellation.
abbrev pub beat : Limits → (String → Bool) → ℕ → ℕ → Job → Job
beat l alive now lease_ms j =
    if not (alive j.run_id)
    then record j { status = cancel_requested; lease = expire_by (now + l.cancel_grace_ms) j.lease }
    else if is_leased j.status
    then record j { lease = expire_at (now + lease_ms) j.lease }
    else j

unfoldable pub heartbeat :
    Limits
    → (String → Bool)
    → ℕ
    → String
    → String
    → String
    → ℕ
    → List Job
    → Option JobStatus × List Job
heartbeat l alive now id token owner lease_ms jobs =
    update_where (is_held now id token owner) (beat l alive now lease_ms) jobs

abbrev pub finish : (String → Bool) → ℕ → Job → Job
finish alive now j =
    if is_cancelling j.status || not (alive j.run_id)
    then close now cancelled j
    else close now succeeded j

unfoldable pub complete :
    (String → Bool) → ℕ → String → String → String → List Job → Option JobStatus × List Job
complete alive now id token owner jobs =
    update_where (is_held now id token owner) (finish alive now) jobs

-- A failed job is cancelled, queued again after a while that doubles up to a minute, or failed.
abbrev pub give_up : (String → Bool) → ℕ → Bool → Job → Job
give_up alive now retryable j =
    if is_cancelling j.status || not (alive j.run_id)
    then close now cancelled j
    else if retryable && ltb j.attempts j.max_attempts
    then record j {
      status = queued;
      available_at = now + min 60 (2 ^ j.attempts) * 1000;
      finished_at = none;
      lease = none;
    }
    else close now failed j

unfoldable pub fail :
    (String → Bool) → ℕ → String → String → String → Bool → List Job → Option JobStatus × List Job
fail alive now id token owner retryable jobs =
    update_where (is_held now id token owner) (give_up alive now retryable) jobs

abbrev pub is_cancellable : String → Job → Bool
is_cancellable run_id j = (j.run_id == run_id) && (is_queued j.status || is_leased j.status)

abbrev pub cancel_job : Limits → ℕ → Job → Job
cancel_job l now j =
    if is_queued j.status
    then record j { status = cancelled; finished_at = some now }
    else record j { status = cancel_requested; lease = expire_by (now + l.cancel_grace_ms) j.lease }

-- `cancelRun`
unfoldable pub cancel_run : Limits → ℕ → String → List Job → Option JobStatus × List Job
cancel_run l now run_id jobs = update_where (is_cancellable run_id) (cancel_job l now) jobs

abbrev pub is_exhausted : ℕ → Job → Bool
is_exhausted now j = is_leased j.status && has_expired now j.lease && leb j.max_attempts j.attempts

-- `reapExhausted`: the runs of the jobs, and the rows.
unfoldable pub reap_exhausted : ℕ → List Job → List String × List Job
reap_exhausted now jobs = (
  map (λ j. j.run_id) (filter (is_exhausted now) jobs),
  map (λ j. if is_exhausted now j then close now failed j else j) jobs,
)
