-- ===== src/Store/Boot/Settled.antt =====
-- The sessions after a restart of server/store.js, and what the resumption of runs and the timer make of them.
use qase.Common.{
  ℕ, ◌-◌, String, Bool, true, false, not, Option, none, some, List, [], ◌∷◌, ◌==◌, ◌&&◌, ◌||◌, ◌≡◌,
  refl, ◌∙◌, arith, if◌then◌else◌, contains, map, get_or, filter, All, leb, Bool-cases, inl, inr,
  is_some, eq_iff,
}
use qase.Store.Findings.{Finding, normalize_finding_status, is_finding_status, status_or_open}
use qase.Store.Timing.{interrupted, active_time, active_from, apply_status_timing, pause}
use qase.Store.Boot.{
  Activity, Stored, Host, mode_of, fail_running, is_settled, load_mode, load_status, load_rest,
  load_session,
}
use qase.Resume.{is_resumable, max_attempts}
use qase.Resume

abbrev is_empty {ℓ} : {A : Type ℓ} → List A → Bool
is_empty [] = true
is_empty (x ∷ xs) = false

abbrev pub is_running : Activity → Bool
is_running a = a.status == "running"

fail_running-stops :
    (acts : List Activity) → All (λ a. is_running a ≡ false) (map fail_running acts)
fail_running-stops [] = tt
fail_running-stops (a ∷ acts) = (
  elim (Bool-cases (a.status == "running")) [ inl e ↦ rw e refl | inr e ↦ rw (e, e) refl ],
  fail_running-stops acts,
)

open-valid : is_finding_status "open" ≡ true
unfolding is_finding_status contains
open-valid = refl

pub status_or_open-valid : (o : Option String) → is_finding_status (status_or_open o) ≡ true
status_or_open-valid none = open-valid
status_or_open-valid (some s) = elim (Bool-cases (is_finding_status s)) [
  | inl e ↦ rw e e
  | inr e ↦ rw e open-valid
]

abbrev valid_status : Finding → Bool
valid_status f = is_finding_status (get_or f.status "")

normalize-valid :
    (now : ℕ) (fs : List Finding)
    → All (λ f. valid_status f ≡ true) (map (normalize_finding_status now) fs)
unfolding normalize_finding_status
normalize-valid now [] = tt
normalize-valid now (f ∷ fs) = (status_or_open-valid f.status, normalize-valid now fs)

filter-thinking :
    (ms : List String) → All (λ m. m == "thinking" ≡ false) (filter (λ m. not (m == "thinking")) ms)
unfolding filter
filter-thinking [] = tt
filter-thinking (m ∷ ms) = elim (Bool-cases (m == "thinking")) [
  | inl e ↦ rw e (filter-thinking ms)
  | inr e ↦ rw e (e, filter-thinking ms)
]

and_false : (b : Bool) → b && false ≡ false
and_false b = ground arith

states_of {ℓ κ} :
    {S : Type ℓ} {F : Type κ} (m : String) (a : Option S) (b : Option F)
    → is_some (if m == "sqa" then a else none) && is_some (if m == "founder" then b else none)
      ≡ false
states_of m a b = elim (Bool-cases (m == "sqa")) [
  | inl e ↦ rw ((eq_iff m "sqa").0 e) (and_false (is_some a))
  | inr e ↦ rw e refl
]

module _ {ℓ κ} {S : Type ℓ} {F : Type κ} where
  -- What holds of a session once it has been loaded.
  pub record IsLoaded (s : Stored S F) : Type 0 where
    idle_status : s.status == "running" ≡ false
    no_secrets : is_settled s.status && not (is_empty s.secret_names) ≡ false
    tracked : All (λ f. valid_status f ≡ true) s.findings
    one_state : is_some s.sqa && is_some s.founder ≡ false
    counted : is_some s.auto_resume_count ≡ true
    silent : All (λ m. m == "thinking" ≡ false) s.messages

  load_status-stops : (s : Stored S F) → (load_status s).status == "running" ≡ false
  unfolding load_status
  load_status-stops s = elim (Bool-cases (s.status == "running")) [
    | inl e ↦ rw e refl
    | inr e ↦ elim (Bool-cases (s.status == "awaiting_input")) [
      | inl f ↦ rw (e, f, e) refl
      | inr f ↦ rw (e, f, e) refl
    ]
  ]

  load_status-states :
      (s : Stored S F)
      → is_some (load_status s).sqa && is_some (load_status s).founder
        ≡ is_some s.sqa && is_some s.founder
  unfolding load_status
  load_status-states s = elim (Bool-cases (s.status == "running")) [
    | inl e ↦ rw e refl
    | inr e ↦ elim (Bool-cases (s.status == "awaiting_input")) [
      | inl f ↦ rw (e, f) refl
      | inr f ↦ rw (e, f) refl
    ]
  ]

  load_mode-states :
      (h : Host S F) (s : Stored S F)
      → is_some (load_mode h s).sqa && is_some (load_mode h s).founder ≡ false
  unfolding load_mode
  load_mode-states h s = states_of (mode_of s.mode) _ _

  -- After a restart no session is running; one at `done`, `error` or `idle` has the name of no secret; every finding
  -- has one of the four statuses; no session has the states of two modes; every counter of resumptions is set; and no
  -- message is a thought.
  pub load_session-IsLoaded :
      (h : Host S F) (now : ℕ) (s : Stored S F) → IsLoaded (load_session h now s)
  unfolding load_session load_rest
  load_session-IsLoaded h now s = record {
    idle_status = load_status-stops (load_mode h s);
    no_secrets = ground arith;
    tracked = normalize-valid now _;
    one_state = load_status-states (load_mode h s) ∙ load_mode-states h s;
    counted = refl;
    silent = filter-thinking _;
  }

  -- A run that the restart found running or waiting has no activity that is running.
  pub load_session-activities :
      (h : Host S F) (now : ℕ) (s : Stored S F)
      → (s.status == "running") || (s.status == "awaiting_input") ≡ true
      → All (λ a. is_running a ≡ false) (load_session h now s).activities
  unfolding load_session load_rest load_status load_mode
  load_session-activities h now s r = elim (Bool-cases (s.status == "running")) [
    | inl e ↦ rw e (fail_running-stops s.activities)
    | inr e ↦ rw (e, rw e at r) (fail_running-stops s.activities)
  ]

  -- What the resumption of runs reads of a session; what it has published or finalized is an argument.
  abbrev pub resume_view : Bool → Bool → Bool → Stored S F → Resume.Session
  resume_view published sqa_final founder_final s = record {
    id = s.id;
    owner = s.owner;
    status = s.status;
    interrupted_from_run = s.interrupted_from_run;
    auto_resume_count = get_or s.auto_resume_count 0;
    cap_noted = false;
    published = published;
    mode = mode_of s.mode;
    sqa_finalized = sqa_final;
    founder_finalized = founder_final;
    activities = [];
  }

  -- The runs without a report that may be resumed after a restart are those that were running when the server stopped
  -- and those that were interrupted in a run before and not resumed since, as long as they have been resumed less than
  -- three times: a run that waited for an answer is not among them.
  pub is_resumable-load_session :
      (h : Host S F) (now : ℕ) (s : Stored S F)
      → is_resumable (resume_view false false false (load_session h now s))
        ≡ ((s.status == "running") || ((s.status == "interrupted") && s.interrupted_from_run))
          && not (leb max_attempts (get_or s.auto_resume_count 0))
  unfolding is_resumable load_session load_rest load_status load_mode
  is_resumable-load_session h now s = elim (Bool-cases (s.status == "running")) [
    | inl e ↦ rw e (ground arith)
    | inr e ↦ elim (Bool-cases (s.status == "awaiting_input")) [
      | inl f ↦ rw (e, f) (rw ((eq_iff s.status "awaiting_input").0 f) (ground arith))
      | inr f ↦ rw (e, f) (ground arith)
    ]
  ]

  -- A run that was started, running and not paused when the server stopped keeps no pause: after the restart its active
  -- time goes on with the clock, where the change of status to `interrupted` stops it at the time of the change.
  pub load_session-counts_on :
      (h : Host S F) (now later start : ℕ) (s : Stored S F)
      → s.timing.started_at ≡ some start
      → s.timing.completed_at ≡ none
      → s.timing.paused_at ≡ none
      → (active_time later (load_session h now s).timing ≡ some (later - start - s.timing.paused))
        × (active_time later (apply_status_timing now interrupted s.timing)
            ≡ some (now - start - s.timing.paused))
  unfolding active_time active_from apply_status_timing pause load_session load_rest load_status
      load_mode
  load_session-counts_on h now later start s a c p = ground arith
