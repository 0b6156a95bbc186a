-- ===== src/Store/Findings.antt =====
-- server/store.js: the tracking status of findings and the bug backlog over the runs. A text that is searched or cut is
-- a list of code units; `trim` and `toLowerCase` are arguments, as is the time.
pub mod Backlog
use qase.Common.{
  ℕ, suc, ◌+◌, ◌-◌, String, Bool, true, false, not, Option, none, some, List, [], ◌∷◌, ◌++◌, ◌==◌,
  ◌&&◌, ◌||◌, leb, ltb, eqb, if◌then◌else◌, contains, map, get_or, or_else, filter, min, max,
  length, Text, take, includes,
}
use qase.Common.Result.{Result, ok, err}

-- FINDING_STATUSES and FINDING_SEVERITY_ORDER
abbrev pub finding_statuses : List String
finding_statuses = "open" ∷ "in_progress" ∷ "fixed" ∷ "wont_fix" ∷ []

abbrev pub severity_order : List String
severity_order = "critical" ∷ "high" ∷ "medium" ∷ "low" ∷ "info" ∷ []

-- FINDING_NOTE_MAX
abbrev pub note_max : ℕ
note_max = 500

unfoldable pub is_finding_status : String → Bool
is_finding_status s = contains s finding_statuses

pub record Finding : Type 0 where
  pub id : String
  pub title : Text
  pub category : Text
  pub url : Text
  pub severity : String
  -- missing in findings that were filed before statuses existed
  pub status : Option String
  pub status_ts : Option ℕ
  pub status_note : Option Text
  pub ts : Option ℕ

abbrev pub status_or_open : Option String → String
status_or_open none = "open"
status_or_open (some s) = if is_finding_status s then s else "open"

-- `normalizeFindingStatus`
unfoldable pub normalize_finding_status : ℕ → Finding → Finding
normalize_finding_status now f = record f {
  status = some (status_or_open f.status);
  status_ts = some (get_or f.status_ts (get_or f.ts now));
  status_note = some (take note_max (get_or f.status_note []));
}

pub data Fault : Type 0 where
  not_found : String → Fault
  status_invalid : Fault
  note_not_text : Fault
  note_too_long : Fault
  severity_invalid : Fault

-- The note of a change: `undefined` or `null`, a text, or anything else.
pub data Note : Type 0 where
  no_note : Note
  text : Text → Note
  not_text : Note

unfoldable pub find_finding : String → List Finding → Option Finding
find_finding id [] = none
find_finding id (f ∷ fs) = if f.id == id then some f else find_finding id fs

-- The finding that the reference from `find` points to is changed where it stands.
unfoldable pub put_finding : Finding → List Finding → List Finding
put_finding g [] = []
put_finding g (f ∷ fs) = if f.id == g.id then g ∷ fs else f ∷ put_finding g fs

-- The note that is stored.
abbrev pub checked_note : (Text → Text) → Note → Option Text → Result Fault Text
checked_note trim no_note old = ok (get_or old [])
checked_note trim (text t) old =
    if ltb note_max (length (trim t)) then err note_too_long else ok (trim t)
checked_note trim not_text old = err note_not_text

abbrev pub stamp :
    ℕ → String → Finding → List Finding → Result Fault Text → Result Fault (List Finding)
stamp now s f fs (err e) = err e
stamp now s f fs (ok n) =
    ok (put_finding (record f { status = some s; status_ts = some now; status_note = some n }) fs)

abbrev set_found :
    (Text → Text)
    → ℕ
    → String
    → String
    → Note
    → List Finding
    → Option Finding
    → Result Fault (List Finding)
set_found trim now id s n fs none = err (not_found id)
set_found trim now id s n fs (some f) =
    if is_finding_status s
    then stamp now s f fs (checked_note trim n f.status_note)
    else err status_invalid

-- `setFindingStatus`
unfoldable pub set_finding_status :
    (Text → Text) → ℕ → String → String → Note → List Finding → Result Fault (List Finding)
set_finding_status trim now id s n fs = set_found trim now id s n fs (find_finding id fs)
