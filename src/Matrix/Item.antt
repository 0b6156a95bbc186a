-- ===== src/Matrix/Item.antt =====
-- server/matrixService.js: the items of a matrix run, patches to them, and the guarded write
-- `updateItem`. A patch has an entry for each key; `none` means that the key is not in the patch. A
-- finding and an artifact reference are kept as one text each, and the fields that no operation here
-- reads (ordinal, profile, target) are left out.
use qase.Common.{
  String, Bool, true, false, Option, none, some, List, [], ◌∷◌, ℕ, ◌==◌, ◌&&◌, not, if◌then◌else◌,
  get_or,
}
use qase.Common.Result.{Result, ok, err, ◌>>=◌}

-- MATRIX_ITEM_STATUSES
pub data Status : Type 0 where
  pending queued running passed failed not_run unavailable not_supported blocked error : Status
  cancelled : Status

pub data RunStatus : Type 0 where
  pending running done error interrupted cancelled : RunStatus

-- What is recorded of an answer that no person gave.
pub record Evidence : Type 0 where
  pub question : String
  pub answer : String
  pub basis : String

pub record Item : Type 0 where
  pub id : String
  pub status : Status
  pub reason : Option String
  pub error : Option String
  pub session_id : Option String
  pub verdict : Option String
  pub findings : List String
  pub artifact_refs : List String
  pub started_at : Option String
  pub finished_at : Option String
  pub duration_ms : Option ℕ
  -- `retryCount ?? 0` and `autoAnswers ?? 0`
  pub retry_count : ℕ
  pub auto_answers : ℕ
  pub auto_answer_evidence : List Evidence

pub record Run : Type 0 where
  pub id : String
  pub status : RunStatus
  pub items : List Item
  pub started_at : Option String
  pub finished_at : Option String
  pub error : Option String
  pub cancel_reason : Option String

pub record Patch : Type 0 where
  pub status : Option Status
  pub reason : Option (Option String)
  pub error : Option (Option String)
  pub session_id : Option (Option String)
  pub verdict : Option (Option String)
  pub findings : Option (List String)
  pub artifact_refs : Option (List String)
  pub started_at : Option (Option String)
  pub finished_at : Option (Option String)
  pub duration_ms : Option (Option ℕ)
  pub retry_count : Option ℕ
  pub auto_answers : Option ℕ
  pub auto_answer_evidence : Option (List Evidence)

abbrev pub no_change : Patch
no_change = record {
  status = none;
  reason = none;
  error = none;
  session_id = none;
  verdict = none;
  findings = none;
  artifact_refs = none;
  started_at = none;
  finished_at = none;
  duration_ms = none;
  retry_count = none;
  auto_answers = none;
  auto_answer_evidence = none;
}

-- `{ ...item, ...patch }`
unfoldable pub apply : Patch → Item → Item
apply p i = record {
  id = i.id;
  status = get_or p.status i.status;
  reason = get_or p.reason i.reason;
  error = get_or p.error i.error;
  session_id = get_or p.session_id i.session_id;
  verdict = get_or p.verdict i.verdict;
  findings = get_or p.findings i.findings;
  artifact_refs = get_or p.artifact_refs i.artifact_refs;
  started_at = get_or p.started_at i.started_at;
  finished_at = get_or p.finished_at i.finished_at;
  duration_ms = get_or p.duration_ms i.duration_ms;
  retry_count = get_or p.retry_count i.retry_count;
  auto_answers = get_or p.auto_answers i.auto_answers;
  auto_answer_evidence = get_or p.auto_answer_evidence i.auto_answer_evidence;
}

-- `items.find((candidate) => candidate.id === itemId)`
unfoldable pub find_item : String → List Item → Option Item
find_item k [] = none
find_item k (i ∷ is) = if i.id == k then some i else find_item k is

-- The backend's `updateItem`: the first item with the id is replaced.
unfoldable pub replace_item : String → Patch → List Item → List Item
replace_item k p [] = []
replace_item k p (i ∷ is) = if i.id == k then apply p i ∷ is else i ∷ replace_item k p is

pub data Error : Type 0 where
  unknown_run unknown_item fabricated_outcome : Error

-- `status === 'PASSED' || status === 'FAILED'`
abbrev pub is_executed : Status → Bool
is_executed passed = true
is_executed failed = true
is_executed _ = false

-- A truthy session id: present and not the empty text.
abbrev pub truthy : Option String → Bool
truthy none = false
truthy (some s) = not (s == "")

-- `patch.sessionId`, where the patch has it.
abbrev patch_session : Option (Option String) → Option String
patch_session none = none
patch_session (some s) = s

-- The guard of the service's `updateItem`. Membership of the vocabulary holds by the type.
unfoldable pub guard_patch : Patch → Item → Result Error (Unit {0})
guard_patch p i = elim p.status [
  | none ↦ ok tt
  | some s ↦
      if is_executed s && not (truthy (patch_session p.session_id)) && not (truthy i.session_id)
      then err fabricated_outcome
      else ok tt
]

-- The service's `updateItem` on a run that exists.
unfoldable pub update_item : Run → String → Patch → Result Error Run
update_item r k p = elim (find_item k r.items) [
  | none ↦ err unknown_item
  | some i ↦ guard_patch p i >>= λ _. ok (record r { items = replace_item k p r.items })
]
