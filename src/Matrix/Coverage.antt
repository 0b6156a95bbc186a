-- ===== src/Matrix/Coverage.antt =====
-- server/matrixCoverage.js: the coverage report over the items of matrix runs. The regular
-- expressions on a recorded reason are arguments; labels and the fields that a report only copies
-- are left out.
pub mod Rows
pub mod Browsers
pub mod States
use qase.Common.{
  ℕ, zero, suc, ◌+◌, ◌-◌, String, Bool, true, false, Option, none, some, List, [], ◌∷◌, ◌++◌, ◌==◌,
  ◌&&◌, ◌||◌, not, eqb, ltb, filter, length, map, contains, if◌then◌else◌, get_or, or_else, is_some,
  Dict, get, set, count,
}
use qase.Matrix.Item.{Status, is_executed}

-- What the report reads of an item.
pub record Entry : Type 0 where
  pub status : Status
  pub reason : Option String
  pub error : Option String
  pub platform : String
  pub device_type : Option String
  pub browser_code : String

-- COVERAGE_STATES
pub data State : Type 0 where
  passed failed environment_unavailable browser_unavailable device_offline execution_failed : State
  not_selected not_supported not_run running : State

pub record Reasons : Type 0 where
  pub deselected : String → Bool
  pub offline : String → Bool
  pub health_check : String → Bool
  pub browser : String → Bool

abbrev reason_text : Entry → String
reason_text e = get_or (or_else e.reason e.error) ""

-- `coverageStateOf`
unfoldable pub coverage_state_of : Reasons → Entry → State
coverage_state_of x e = elim e.status [
  | Status.passed ↦ passed
  | Status.failed ↦ failed
  | Status.not_supported ↦ not_supported
  | Status.running ↦ running
  | Status.not_run ↦ if x.deselected (get_or e.reason "") then not_selected else not_run
  | Status.unavailable ↦
      if x.offline (reason_text e)
      then device_offline
      else if x.health_check (reason_text e)
      then environment_unavailable
      else if x.browser (reason_text e)
      then browser_unavailable
      else environment_unavailable
  | Status.error ↦ if x.offline (reason_text e) then device_offline else execution_failed
  | Status.blocked ↦ if x.offline (reason_text e) then device_offline else execution_failed
  | Status.pending ↦ not_run
  | Status.queued ↦ not_run
  | Status.cancelled ↦ not_selected
]

-- `categoryOf`
pub category_of : Entry → Option String
category_of e =
    if e.platform == "ios"
    then some "ios"
    else if e.platform == "ipados"
    then some "ipados"
    else if e.platform == "android"
    then some (if get_or e.device_type "" == "tablet" then "android_tablet" else "android_phone")
    else if e.platform == "windows"
    then some "windows"
    else if e.platform == "macos"
    then some "macos"
    else none

-- The place of a status in the vocabulary, to compare two.
abbrev status_code : Status → ℕ
status_code Status.pending = 0
status_code Status.queued = 1
status_code Status.running = 2
status_code Status.passed = 3
status_code Status.failed = 4
status_code Status.not_run = 5
status_code Status.unavailable = 6
status_code Status.not_supported = 7
status_code Status.blocked = 8
status_code Status.error = 9
status_code Status.cancelled = 10

-- `statuses.set(status, (statuses.get(status) ?? 0) + 1)`
pub bump_status : Status → List (Status × ℕ) → List (Status × ℕ)
bump_status s [] = (s, 1) ∷ []
bump_status s ((t, n) ∷ m) =
    if eqb (status_code t) (status_code s) then (t, n + 1) ∷ m else (t, n) ∷ bump_status s m

pub record Bucket : Type 0 where
  pub executed : ℕ
  pub total : ℕ
  pub statuses : List (Status × ℕ)
  pub reasons : Dict ℕ

abbrev pub no_items : Bucket
no_items = record { executed = 0; total = 0; statuses = []; reasons = [] }

abbrev pub bucket_of : String → Dict Bucket → Bucket
bucket_of k m = get_or (get k m) no_items

-- One more item in a bucket; `note` is what it does to the reasons.
abbrev pub add_item : (Entry → Dict ℕ → Dict ℕ) → Entry → Bucket → Bucket
add_item note e b = record {
  executed = if is_executed e.status then b.executed + 1 else b.executed;
  total = b.total + 1;
  statuses = bump_status e.status b.statuses;
  reasons = note e b.reasons;
}

-- An item goes into the bucket of its key, where it has one.
pub put_item : Option String → (Entry → Dict ℕ → Dict ℕ) → Entry → Dict Bucket → Dict Bucket
put_item none note e m = m
put_item (some k) note e m = set k (add_item note e (bucket_of k m)) m

-- The loops over the items, by category and by browser.
pub tally :
    (Entry → Option String) → (Entry → Dict ℕ → Dict ℕ) → List Entry → Dict Bucket → Dict Bucket
tally key note [] m = m
tally key note (e ∷ es) m = tally key note es (put_item (key e) note e m)

-- `if (item.reason) bucket.reasons.set(...)`
pub note_reason : Entry → Dict ℕ → Dict ℕ
note_reason e m = elim e.reason [
  | none ↦ m
  | some r ↦ if r == "" then m else set r (get_or (get r m) 0 + 1) m
]

-- The first entry with the greatest count: the head of a stable sort by falling count.
unfoldable pub first_greatest {ℓ} : {A : Type ℓ} → List (A × ℕ) → Option (A × ℕ)
first_greatest [] = none
first_greatest ((a, n) ∷ m) = elim (first_greatest m) [
  | none ↦ some (a, n)
  | some (b, k) ↦ if ltb n k then some (b, k) else some (a, n)
]

-- `dominantGap`
pub dominant_gap : List (Status × ℕ) → ℕ → Option Status
dominant_gap statuses zero = none
dominant_gap statuses (suc n) =
    elim (first_greatest (filter (λ x. not (is_executed x.0)) statuses)) [
      | none ↦ none
      | some (s, _) ↦ some s
    ]

pub data Gap : Type 0 where
  by_reason : String → Gap
  by_status : Status → Gap

-- `dominantReason`
pub dominant_reason : Dict ℕ → List (Status × ℕ) → ℕ → Option Gap
dominant_reason reasons statuses zero = none
dominant_reason reasons statuses (suc n) = elim (first_greatest reasons) [
  | some (r, _) ↦ some (by_reason r)
  | none ↦ elim (dominant_gap statuses (suc n)) [ none ↦ none | some s ↦ some (by_status s) ]
]

-- A row of the report, on a category or a browser.
pub record Row {ℓ} (G : Type ℓ) : Type ℓ where
  pub name : String
  pub requested : ℕ
  pub executed : ℕ
  pub covered : Bool
  pub gap_reason : Option G

abbrev pub categories : List String
categories = "ios" ∷ "ipados" ∷ "android_phone" ∷ "android_tablet" ∷ "windows" ∷ "macos" ∷ []

-- BROWSER_ORDER
abbrev pub browser_order : List String
browser_order = "chrome" ∷ "edge" ∷ "firefox" ∷ "safari" ∷ "opera" ∷ "brave" ∷ "duckduckgo" ∷ []

abbrev pub by_category : List Entry → Dict Bucket
by_category es = tally category_of (λ e m. m) es []

abbrev pub by_browser : List Entry → Dict Bucket
by_browser es = tally (λ e. some e.browser_code) note_reason es []

pub category_row : List Entry → String → Row Status
category_row es k =
    let b = bucket_of k (by_category es) in
    record {
      name = k;
      requested = b.total;
      executed = b.executed;
      covered = ltb 0 b.executed;
      gap_reason = dominant_gap b.statuses (b.total - b.executed);
    }

pub browser_row : List Entry → String → Row Gap
browser_row es k =
    let b = bucket_of k (by_browser es) in
    record {
      name = k;
      requested = b.total;
      executed = b.executed;
      covered = ltb 0 b.executed;
      gap_reason = dominant_reason b.reasons b.statuses (b.total - b.executed);
    }

pub device_categories : List Entry → List (Row Status)
device_categories es = map (λ k. category_row es k) categories

-- The agreed browsers, and then those outside the agreed set that appear in items.
pub browsers : List Entry → List (Row Gap)
browsers es =
    map (λ k. browser_row es k) browser_order
    ++ map (λ k. browser_row es k)
        (filter (λ k. not (contains k browser_order)) (map (λ x. x.0) (by_browser es)))

-- The statuses that a run lists as gaps.
abbrev pub is_gap : Status → Bool
is_gap Status.passed = false
is_gap Status.failed = false
is_gap Status.running = false
is_gap _ = true

-- `gaps` of the summary of a run: the state and the reason of each.
pub gaps_of : Reasons → List Entry → List (State × Option String)
gaps_of x es =
    map (λ e. (coverage_state_of x e, or_else e.reason e.error)) (filter (λ e. is_gap e.status) es)

abbrev state_code : State → ℕ
state_code passed = 0
state_code failed = 1
state_code environment_unavailable = 2
state_code browser_unavailable = 3
state_code device_offline = 4
state_code execution_failed = 5
state_code not_selected = 6
state_code not_supported = 7
state_code not_run = 8
state_code running = 9

-- `execution.states[state.id] += 1`
abbrev pub add_state : State → (State → ℕ) → State → ℕ
add_state t c s = if eqb (state_code t) (state_code s) then c s + 1 else c s

-- `execution.states`: the loop that counts the items by state.
pub count_states : Reasons → List Entry → (State → ℕ) → State → ℕ
count_states x [] c = c
count_states x (e ∷ es) c = count_states x es (add_state (coverage_state_of x e) c)

pub states : Reasons → List Entry → State → ℕ
states x es = count_states x es (λ s. 0)
