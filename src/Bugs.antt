-- ===== src/Bugs.antt =====
-- server/bugService.js: bug records, their numbers and their validation, over the map of the file backend.
-- Identifiers and times are drawn outside, the text operations and the form of a number are arguments, and
-- the snapshot of an environment is one text.
pub mod Normal
pub mod Number
use qase.Common.{
  ℕ, ◌+◌, max, String, Bool, true, false, not, Option, none, some, List, [], ◌∷◌, ◌==◌, ltb,
  if◌then◌else◌, contains, any, map, filter, length, Dict, get, set, get_or, or_else,
}
use qase.Common.Result.{Result, ok, err}

pub data Error : Type 0 where
  title_required title_too_long description_too_long bad_severity bad_status too_many_steps : Error
  step_too_long : Error

pub record Texts : Type 0 where
  pub trim : String → String
  pub lower : String → String
  pub size : String → ℕ
  -- `/^BUG-(\d+)$/`, and the number
  pub number_of : String → Option ℕ
  -- `BUG-${String(n).padStart(4, '0')}`
  pub name_of : ℕ → String

-- TITLE_MAX, DESCRIPTION_MAX, MAX_STEPS, STEP_MAX, SEVERITIES and STATUSES
abbrev pub title_max : ℕ
title_max = 300

abbrev pub description_max : ℕ
description_max = 4000

abbrev pub max_steps : ℕ
max_steps = 50

abbrev pub step_max : ℕ
step_max = 1000

abbrev pub severities : List String
severities = "low" ∷ "medium" ∷ "high" ∷ "critical" ∷ []

abbrev pub statuses : List String
statuses = "open" ∷ "in_progress" ∷ "resolved" ∷ "wont_fix" ∷ "reopened" ∷ []

-- What is reported; a field may be missing.
pub record Input : Type 0 where
  pub title : Option String
  pub description : Option String
  pub severity : Option String
  pub status : Option String
  pub category : Option String
  pub expected : Option String
  pub actual : Option String
  pub steps : Option (List String)

pub record Fields : Type 0 where
  pub title : String
  pub description : Option String
  pub severity : String
  pub status : String
  pub category : Option String
  pub expected : Option String
  pub actual : Option String
  pub steps : List String

-- `text`: trimmed, and missing where nothing is left.
abbrev pub text : Texts → Option String → Option String
text t none = none
text t (some v) = let x = t.trim v in if x == "" then none else some x

abbrev pub title_of : Texts → Option String → String
title_of t none = ""
title_of t (some v) = t.trim v

abbrev pub lower_or : Texts → String → Option String → String
lower_or t d none = d
lower_or t d (some v) = t.lower v

-- `.map((step) => String(step).trim()).filter(Boolean)`
unfoldable pub trim_steps : Texts → List String → List String
trim_steps t [] = []
trim_steps t (x ∷ xs) = if t.trim x == "" then trim_steps t xs else t.trim x ∷ trim_steps t xs

unfoldable pub fields_of : Texts → Input → Fields
unfolding trim_steps
fields_of t i = record {
  title = title_of t i.title;
  description = text t i.description;
  severity = lower_or t "medium" i.severity;
  status = lower_or t "open" i.status;
  category = text t i.category;
  expected = text t i.expected;
  actual = text t i.actual;
  steps = trim_steps t (get_or i.steps []);
}

-- The first test that fails, in the order of the code.
unfoldable pub fault : Texts → Fields → Option Error
fault t f =
    if f.title == ""
    then some title_required
    else if ltb title_max (t.size f.title)
    then some title_too_long
    else if ltb description_max (t.size (get_or f.description ""))
    then some description_too_long
    else if not (contains f.severity severities)
    then some bad_severity
    else if not (contains f.status statuses)
    then some bad_status
    else if ltb max_steps (length f.steps)
    then some too_many_steps
    else if any (λ s. ltb step_max (t.size s)) f.steps
    then some step_too_long
    else none

abbrev pub unless {ℓ} : {A : Type ℓ} → Option Error → A → Result Error A
unless none a = ok a
unless (some x) a = err x

-- `normalizeBugInput`
unfoldable pub normalize_bug_input : Texts → Input → Result Error Fields
unfolding fields_of fault
normalize_bug_input t i = let f = fields_of t i in unless (fault t f) f

-- What a bug is linked to; an empty text counts as missing.
pub record Links : Type 0 where
  pub environment_id : Option String
  pub environment_snapshot : Option String
  pub execution_level : Option String
  pub linked_run_id : Option String
  pub linked_test_case_id : Option String

-- What a run says of itself; the level is the first of the three places that has one.
pub record RunFacts : Type 0 where
  pub environment_id : Option String
  pub environment_snapshot : Option String
  pub execution_level : Option String
  pub test_case_id : Option String

-- `associateFromRun`; `find_run` is the service of runs, where there is one.
abbrev pub fill_links : Links → Option RunFacts → Links
fill_links l none = l
fill_links l (some r) = record l {
  environment_id = or_else l.environment_id r.environment_id;
  environment_snapshot = or_else l.environment_snapshot r.environment_snapshot;
  execution_level = or_else l.execution_level r.execution_level;
  linked_test_case_id = or_else l.linked_test_case_id r.test_case_id;
}

pub associate_from_run : (String → Option RunFacts) → Links → Links
associate_from_run find_run l = elim l.linked_run_id [
  | none ↦ l
  | some id ↦ fill_links l (find_run id)
]

pub record Bug : Type 0 where
  pub id : String
  pub bug_number : String
  pub fields : Fields
  pub links : Links

-- The greatest number of the records, 0 where there is none.
unfoldable pub greatest : Texts → Dict Bug → ℕ
greatest t [] = 0
greatest t ((k, b) ∷ m) = max (get_or (t.number_of b.bug_number) 0) (greatest t m)

-- `nextBugNumber`
pub next_bug_number : Texts → Dict Bug → String
unfolding greatest
next_bug_number t m = t.name_of (greatest t m + 1)

abbrev store_new :
    Texts → String → Links → Result Error Fields → Dict Bug → Result Error Bug × Dict Bug
store_new t id l (err x) m = (err x, m)
store_new t id l (ok f) m =
    let b : Bug = record { id = id; bug_number = next_bug_number t m; fields = f; links = l } in
    (ok b, set b.bug_number b m)

-- The backend's `create`
pub create : Texts → String → Input → Links → Dict Bug → Result Error Bug × Dict Bug
unfolding next_bug_number normalize_bug_input
create t id i l m = store_new t id l (normalize_bug_input t i) m

-- A patch: a field is not in it, is in it as null, or has a value.
pub record Patch : Type 0 where
  pub title : Option (Option String)
  pub description : Option (Option String)
  pub severity : Option (Option String)
  pub status : Option (Option String)
  pub category : Option (Option String)
  pub expected : Option (Option String)
  pub actual : Option (Option String)
  pub steps : Option (Option (List String))

-- `patch.x !== undefined ? patch.x : record.x`
pub merge : Patch → Fields → Input
merge p f = record {
  title = get_or p.title (some f.title);
  description = get_or p.description f.description;
  severity = get_or p.severity (some f.severity);
  status = get_or p.status (some f.status);
  category = get_or p.category f.category;
  expected = get_or p.expected f.expected;
  actual = get_or p.actual f.actual;
  steps = get_or p.steps (some f.steps);
}

abbrev store_fields :
    String → Bug → Result Error Fields → Dict Bug → Result Error (Option Bug) × Dict Bug
store_fields k b (err x) m = (err x, m)
store_fields k b (ok f) m = let c = record b { fields = f } in (ok (some c), set k c m)

abbrev update_found :
    Texts → String → Patch → Option Bug → Dict Bug → Result Error (Option Bug) × Dict Bug
update_found t k p none m = (ok none, m)
update_found t k p (some b) m = store_fields k b (normalize_bug_input t (merge p b.fields)) m

-- The backend's `update`
pub update : Texts → String → Patch → Dict Bug → Result Error (Option Bug) × Dict Bug
unfolding normalize_bug_input merge
update t k p m = update_found t k p (get k m) m

-- `byBugNumber.delete(k)`
unfoldable pub delete : String → Dict Bug → Dict Bug
delete k [] = []
delete k ((j, b) ∷ m) = if j == k then m else (j, b) ∷ delete k m

pub removed : String → Option Bug → Dict Bug → Option Bug × Dict Bug
unfolding delete
removed k none m = (none, m)
removed k (some b) m = (some b, delete k m)

-- The backend's `remove`
pub remove : String → Dict Bug → Option Bug × Dict Bug
unfolding removed
remove k m = removed k (get k m) m
