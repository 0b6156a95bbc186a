-- ===== src/Examples/Boots.antt =====
-- A restart, with one run to resume: server/runResume.js.
use qase.Common.{
  ◌≤◌, String, true, false, none, some, List, [], ◌∷◌, ◌≡◌, ◌==◌, refl, count, Dict, get,
  Bool-cases, inl, inr,
}
use qase.Resume.{Session, Host, resume_all, resumes_of, logged, max_attempts, begins, boots}
use qase.Resume.Budget.{Life-budget}

abbrev session : Session
session = record {
  id = "a";
  owner = none;
  status = "interrupted";
  interrupted_from_run = true;
  auto_resume_count = 0;
  cap_noted = false;
  published = false;
  mode = "qa";
  sqa_finalized = false;
  founder_finalized = false;
  activities = record { id = "t"; status = "running" } ∷ [];
}

abbrev sessions : Dict Session
sessions = ("a", session) ∷ []

abbrev host : Host
host = record {
  snapshots = some (record { session_id = "a"; owner = none; saved_at = 5 } ∷ []);
  interrupted = some (session ∷ []);
  takes_message = λ id. true;
  has_runtime = λ id. true;
  updates = λ id. true;
}

unused : (id : String) → resumes_of (get id sessions) ≡ 0
unfolding get
unused id = elim (Bool-cases ("a" == id)) [ inl e ↦ rw e refl | inr e ↦ rw e refl ]

abbrev outcome : List String × Dict Session
outcome = (logged (resume_all host sessions).0 [], (resume_all host sessions).1)

Life-budget_example :
    (count (λ x. x == "a") outcome.0 ≡ resumes_of (get "a" outcome.1))
    × (count (λ x. x == "a") outcome.0 ≤ max_attempts)
Life-budget_example = Life-budget outcome.0 outcome.1 (boots host (begins unused)) "a"
