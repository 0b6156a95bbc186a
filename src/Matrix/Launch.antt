-- ===== src/Matrix/Launch.antt =====
-- `executeItem` of server/matrixOrchestrator.js on the stored item: what the hooks and services
-- answer is an argument, and each `mark` is the guarded write of the service to this item. Times are
-- texts that the caller gives.
pub mod Verdict
use Prim.Native.String.{◌++◌ as append}
use qase.Common.{
  ℕ, zero, suc, ◌+◌, ◌-◌, String, Bool, true, false, Option, none, some, List, [], ◌∷◌, ◌++◌, ◌==◌,
  ◌&&◌, ◌||◌, not, if◌then◌else◌, get_or, or_else, is_some, leb,
}
use qase.Common.Result.{Result, ok, err}
use qase.Matrix.Item.{Item, Patch, Status, Evidence, Error, no_change, apply, guard_patch}
use qase.Matrix.Policy.{Question, Hints, Policy, Answer, auto_answer_for}

-- What was thrown: whether its code is RUNTIME_UNAVAILABLE, and its message or its text.
pub record Thrown : Type 0 where
  pub runtime_unavailable : Bool
  pub message : String

-- How the pre-launch checks ended.
pub data Gate : Type 0 where
  passes : Gate
  unsupported : Option String → Gate
  blocked : String → Gate
  gate_times_out : Gate
  gate_throws : Thrown → Gate

-- The browser support that was resolved now, and the one frozen in the item, where it has one.
pub record Support : Type 0 where
  pub not_supported : Bool
  pub reason : Option String

-- `prelaunch`: support first, then the health check where there is one, which gives its reason if
-- its verdict is BLOCKED.
unfoldable pub prelaunch : Support → Option Support → Option (Option String) → Gate
prelaunch now_resolved frozen health =
    let frozen_out : Bool = elim frozen [ none ↦ false | some s ↦ s.not_supported ] in
    let frozen_reason : Option String = elim frozen [ none ↦ none | some s ↦ s.reason ] in
    if now_resolved.not_supported || frozen_out
    then unsupported (or_else now_resolved.reason frozen_reason)
    else elim health [
      | some (some reason) ↦ blocked (append "Health check blocked execution: " reason)
      | _ ↦ passes
    ]

pub data SessionStatus : Type 0 where
  done error interrupted awaiting_input : SessionStatus

-- A session in one of the states that `waitForSession` returns.
pub record Outcome : Type 0 where
  pub status : SessionStatus
  pub verdict : Option String
  pub detail : Option String
  pub pending_question : Option Question

pub data Launched : Type 0 where
  launches : String → Launched
  launch_times_out : Launched
  launch_throws : Thrown → Launched

-- What happens to the item, in the order of the calls. `waits n` is what the wait answers that
-- follows the n-th answer to the session, and `resumes n` what that answer comes to.
pub record World : Type 0 where
  pub gate : Gate
  pub launch : Launched
  pub send_task : Result Thrown (Unit {0})
  pub waits : ℕ → Result Thrown Outcome
  pub resumes : ℕ → Result Thrown Bool
  -- Whether `hooks.resumeSession` is there.
  pub can_resume : Bool
  pub policy : Policy
  pub hints : Hints
  -- `blockedReasonFor(question ?? { question: '' })`
  pub blocked_reason : Option Question → String
  -- Whether the hooks that verify the known-defect fixtures throw.
  pub verify_fixtures : Result Thrown (Unit {0})
  pub artifacts : List String
  pub findings : List String
  pub started_at : String
  pub finished_at : String
  pub duration_ms : ℕ

abbrev pub M : Type 0 → Type 0
M A = Item → Result Thrown A × Item

abbrev continue {ℓ} :
    {A : Type 0} {B : Type ℓ}
    → Result Thrown A
    → (A → Item → Result Thrown B × Item)
    → Item
    → Result Thrown B × Item
continue (ok a) f i = f a i
continue (err t) f i = (err t, i)

infixl 5 ◌>>=◌ ◌>>◌
unfoldable pub ◌>>=◌ : {A B : Type 0} → M A → (A → M B) → M B
◌>>=◌ m f i = let (r, i') = m i in continue r f i'

abbrev pub ◌>>◌ : {B : Type 0} → M (Unit {0}) → M B → M B
m >> n = m >>= λ _. n

abbrev pub pure : {A : Type 0} → A → M A
pure a i = (ok a, i)

abbrev pub lift : {A : Type 0} → Result Thrown A → M A
lift r i = (r, i)

abbrev refusal : Thrown
refusal = record {
  runtime_unavailable = false;
  message = "PASSED/FAILED requires a completed execution (sessionId) — never fabricate outcomes.";
}

-- `mark(patch)`
abbrev write : Result Error (Unit {0}) → Patch → M (Unit {0})
write (ok _) p i = (ok tt, apply p i)
write (err _) p i = (err refusal, i)

unfoldable pub mark : Patch → M (Unit {0})
mark p i = write (guard_patch p i) p i

abbrev pub failed_patch : World → Status → String → Patch
failed_patch w s message = record no_change {
  status = some s;
  error = some (some message);
  finished_at = some (some w.finished_at);
  duration_ms = some (some w.duration_ms);
}

abbrev pub is_awaiting : SessionStatus → Bool
is_awaiting awaiting_input = true
is_awaiting _ = false

-- `autoAnswerFor(policy, question)`, where there may be no question.
abbrev pub auto_answer : World → Option Question → Option Answer
auto_answer w none = none
auto_answer w (some q) = auto_answer_for w.hints w.policy q

abbrev asked_text : Option Question → String
asked_text none = ""
asked_text (some q) = q.question

abbrev pub answer_patch : Option Question → Answer → Item → Patch
answer_patch q a i = record no_change {
  auto_answers = some (i.auto_answers + 1);
  auto_answer_evidence = some (
      i.auto_answer_evidence
      ++ record { question = asked_text q; answer = a.answer; basis = a.basis } ∷ []);
}

-- The answer is recorded, and then given to the session; `rest` goes on with the next wait.
give_answer : World → ℕ → (Outcome → M Outcome) → Outcome → Answer → M Outcome
give_answer w n rest o a i =
    (do
      mark (answer_patch o.pending_question a i)
      resumed ← lift (w.resumes n)
      if resumed then (lift (w.waits (n + 1)) >>= rest) else pure o)
      i

-- The loop while the session awaits input. `left` is how many more answers the item may have, and
-- `n` how many this execution has given.
answer_loop : World → ℕ → ℕ → Outcome → M Outcome
answer_loop w zero n o = pure o
answer_loop w (suc left) n o =
    let rest = answer_loop w left (n + 1) in
    if is_awaiting o.status && w.can_resume
    then elim (auto_answer w o.pending_question) [
      | none ↦ pure o
      | some a ↦ give_answer w n rest o a
    ]
    else pure o

-- MAX_AUTO_ANSWERS_PER_ITEM
abbrev pub max_auto_answers : ℕ
max_auto_answers = 3

abbrev is_verdict : String → Option String → Bool
is_verdict k none = false
is_verdict k (some v) = v == k

-- The status that a finished session gives its item.
abbrev pub verdict_status : Option String → SessionStatus → Option Status
verdict_status verdict s =
    if is_verdict "pass" verdict || is_verdict "pass_with_issues" verdict
    then some Status.passed
    else if is_verdict "fail" verdict
    then some Status.failed
    else if is_verdict "blocked" verdict
    then some Status.blocked
    else elim s [ done ↦ some Status.passed | _ ↦ none ]

abbrev verdict_patch : World → Status → Outcome → Patch
verdict_patch w s o = record no_change {
  status = some s;
  verdict = some o.verdict;
  finished_at = some (some w.finished_at);
  duration_ms = some (some w.duration_ms);
  artifact_refs = some w.artifacts;
  findings = some w.findings;
}

-- The last write of a session that is done.
conclude_verdict : Option Status → World → Outcome → M (Unit {0})
conclude_verdict none w o =
    mark (failed_patch w Status.error "Unexpected session state without report verdict.")
conclude_verdict (some s) w o = lift w.verify_fixtures >> mark (verdict_patch w s o)

conclude : SessionStatus → World → Outcome → M (Unit {0})
unfolding conclude_verdict
conclude error w o = mark (failed_patch w Status.error (get_or o.detail "error"))
conclude interrupted w o = mark (failed_patch w Status.error (get_or o.detail "interrupted"))
conclude awaiting_input w o =
    mark (failed_patch w Status.blocked (w.blocked_reason o.pending_question))
conclude done w o = conclude_verdict (verdict_status o.verdict done) w o

finish : World → Outcome → M (Unit {0})
unfolding conclude
finish w o = conclude o.status w o

abbrev session_patch : String → Patch
session_patch session = record no_change { session_id = some (some session) }

-- From a session that was created to the end of the item.
drive : World → String → M (Unit {0})
unfolding answer_loop give_answer finish
drive w session i =
    (do
      mark (session_patch session)
      lift w.send_task
      o ← lift (w.waits 0)
      o' ← answer_loop w (max_auto_answers - i.auto_answers) 0 o
      finish w o')
      i

launch_session : Launched → World → M (Unit {0})
unfolding drive
launch_session launch_times_out w =
    mark (failed_patch w Status.error "Session creation did not complete in time.")
launch_session (launch_throws t) w = lift (err t)
launch_session (launches session) w = drive w session

abbrev begin_patch : World → Patch
begin_patch w = record no_change {
  status = some Status.running;
  started_at = some (some w.started_at);
}

pass_gate : Gate → World → M (Unit {0})
unfolding launch_session
pass_gate gate_times_out w =
    mark (failed_patch w Status.error "Pre-launch checks did not complete in time.")
pass_gate (gate_throws t) w = lift (err t)
pass_gate (unsupported reason) w = mark (record no_change {
  status = some Status.not_supported;
  reason = some reason;
  finished_at = some (some w.started_at);
})
pass_gate (blocked reason) w = mark (record no_change {
  status = some Status.unavailable;
  reason = some (some reason);
  finished_at = some (some w.finished_at);
  duration_ms = some (some 0);
})
pass_gate passes w = mark (begin_patch w) >> launch_session w.launch w

-- The `try` block.
try_item : World → M (Unit {0})
unfolding pass_gate
try_item w = pass_gate w.gate w

-- The `catch` block.
abbrev caught : World → Thrown → Patch
caught w t =
    if t.runtime_unavailable
    then failed_patch w Status.blocked (append "Blocked: " t.message)
    else failed_patch w Status.error t.message

abbrev handle : World → Result Thrown (Unit {0}) × Item → Result Thrown (Unit {0}) × Item
handle w (ok _, i) = (ok tt, i)
handle w (err t, i) = mark (caught w t) i

-- `executeItem`: whether it throws, and the item after it.
pub execute_item : World → M (Unit {0})
unfolding try_item
execute_item w i = handle w (try_item w i)
