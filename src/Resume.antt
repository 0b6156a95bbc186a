-- ===== src/Resume.antt =====
-- server/runResume.js: after a restart at most one interrupted run is resumed. The sessions are those that
-- the host's `get` hands out, which are changed in place; the host's other services (messages, runtimes,
-- snapshots) are arguments that say how they answer. What the recovery turn does to the session is left to
-- the steps between two boots, and the texts of instructions and logs are left out.
pub mod Budget
use qase.Common.{
  ℕ, zero, suc, ◌+◌, String, Bool, true, false, not, ◌≡◌, Option, none, some, List, [], ◌∷◌, ◌++◌,
  ◌==◌, ◌&&◌, ◌||◌, ltb, leb, if◌then◌else◌, contains, map, Dict, get, set, get_or, filter,
}

-- MAX_AUTO_RESUME_ATTEMPTS
abbrev pub max_attempts : ℕ
max_attempts = 3

pub record Activity : Type 0 where
  pub id : String
  pub status : String

pub record Session : Type 0 where
  pub id : String
  pub owner : Option String
  pub status : String
  pub interrupted_from_run : Bool
  -- `autoResumeCount ?? 0`
  pub auto_resume_count : ℕ
  pub cap_noted : Bool
  -- `report?.publishedAt`, `sqa?.finalizedAt` and `founder?.finalizedAt`, as truth values
  pub published : Bool
  pub mode : String
  pub sqa_finalized : Bool
  pub founder_finalized : Bool
  pub activities : List Activity

-- `isResumable`, of a session that is there
unfoldable pub is_resumable : Session → Bool
is_resumable s =
    s.interrupted_from_run
    && (s.status == "interrupted")
    && not (leb max_attempts s.auto_resume_count)
    && not s.published
    && not ((s.mode == "sqa") && s.sqa_finalized)
    && not ((s.mode == "founder") && s.founder_finalized)

-- An entry of the index of snapshots.
pub record Snapshot : Type 0 where
  pub session_id : String
  pub owner : Option String
  -- `savedAt ?? 0`
  pub saved_at : ℕ

-- How the host answers; `none` is an exception.
pub record Host : Type 0 where
  pub snapshots : Option (List Snapshot)
  pub interrupted : Option (List Session)
  -- A message can be added to the session.
  pub takes_message : String → Bool
  -- The session has a runtime that can restore a snapshot.
  pub has_runtime : String → Bool
  -- The update of an activity succeeds.
  pub updates : String → Bool

-- A session that no snapshot covers becomes a candidate too.
pub uncovered : List String → List Session → List Snapshot
uncovered indexed [] = []
uncovered indexed (s ∷ ss) =
    if not (is_resumable s) || contains s.id indexed
    then uncovered indexed ss
    else record { session_id = s.id; owner = s.owner; saved_at = 0 } ∷ uncovered indexed ss

-- The candidates before they are sorted.
pub scan : Host → List Snapshot
unfolding uncovered
scan h =
    let snapshots = get_or h.snapshots [] in
    snapshots ++ uncovered (map (λ c. c.session_id) snapshots) (get_or h.interrupted [])

-- `.sort((a, b) => (b.savedAt ?? 0) - (a.savedAt ?? 0))`, which is stable.
pub insert_candidate : Snapshot → List Snapshot → List Snapshot
insert_candidate c [] = c ∷ []
insert_candidate c (x ∷ xs) =
    if leb x.saved_at c.saved_at then c ∷ x ∷ xs else x ∷ insert_candidate c xs

pub sort_candidates : List Snapshot → List Snapshot
unfolding insert_candidate
sort_candidates [] = []
sort_candidates (c ∷ cs) = insert_candidate c (sort_candidates cs)

-- A capped session gets its message once.
pub note_cap : Host → Session → Session
note_cap h s =
    if (s.status == "interrupted")
      && s.interrupted_from_run
      && leb max_attempts s.auto_resume_count
      && not s.cap_noted
      && h.takes_message s.id
    then record s { cap_noted = true }
    else s

-- A tool that was running when the process died has failed.
abbrev fail_activity : Host → Activity → Activity
fail_activity h a =
    if (a.status == "running") && h.updates a.id then record a { status = "failed" } else a

-- The session as the recovery turn finds it.
pub resume : Host → Session → Session
resume h s = record s {
  activities = map (fail_activity h) s.activities;
  auto_resume_count = s.auto_resume_count + 1;
  interrupted_from_run = false;
}

-- The run that was resumed, if any, and the sessions.
abbrev pub Outcome : Type 0
Outcome = Option String × Dict Session

pub try_session : Host → String → Session → Dict Session → Outcome → Outcome
unfolding is_resumable resume
try_session h id s m next =
    if not (is_resumable s) || not (h.has_runtime id)
    then next
    else (some id, set id (resume h s) m)

-- The sessions with the message of the candidate's cap.
pub note_in : Host → String → Option Session → Dict Session → Dict Session
unfolding note_cap
note_in h id none m = m
note_in h id (some s) m = set id (note_cap h s) m

pub try_found : Host → String → Option Session → Dict Session → Outcome → Outcome
unfolding note_cap try_session
try_found h id none m next = next
try_found h id (some s) m next = try_session h id (note_cap h s) m next

-- The loop over the candidates.
pub try_candidates : Host → List Snapshot → Dict Session → Outcome
unfolding note_in try_found
try_candidates h [] m = (none, m)
try_candidates h (c ∷ cs) m =
    let found = get c.session_id m in
    let noted = note_in h c.session_id found m in
    let next = try_candidates h cs noted in try_found h c.session_id found noted next

-- `resumeAll`, before the turn
pub resume_all : Host → Dict Session → Outcome
unfolding try_candidates scan sort_candidates
resume_all h m = try_candidates h (sort_candidates (scan h)) m

-- How often a session has been resumed.
abbrev pub resumes_of : Option Session → ℕ
resumes_of none = 0
resumes_of (some s) = s.auto_resume_count

-- What one boot writes into the log.
abbrev pub logged : Option String → List String → List String
logged none log = log
logged (some id) log = id ∷ log

-- The life of the sessions from the first boot on: boots, and between them steps of the rest of the server,
-- which leave the counters alone. The log has the runs that were resumed, the last one first.
pub data Life : List String → Dict Session → Type 0 where
  begins : {m : Dict Session} → ((id : String) → resumes_of (get id m) ≡ 0) → Life [] m
  boots :
      {log : List String} {m : Dict Session} (h : Host)
      → Life log m
      → Life (logged (resume_all h m).0 log) (resume_all h m).1
  goes_on :
      {log : List String} {m n : Dict Session}
      → Life log m
      → ((id : String) → resumes_of (get id n) ≡ resumes_of (get id m))
      → Life log n
