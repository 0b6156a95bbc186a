-- ===== src/Store/Findings/Backlog.antt =====
-- `aggregateSessionFindings` of server/store.js.
pub mod Rows
use qase.Common.{
  ℕ, suc, ◌+◌, ◌-◌, String, Bool, true, false, not, Option, none, some, List, [], ◌∷◌, ◌++◌, ◌==◌,
  ◌&&◌, ◌||◌, leb, ltb, eqb, if◌then◌else◌, contains, map, get_or, or_else, filter, min, max,
  length, Text, take, includes,
}
use qase.Common.Result.{Result, ok, err}
use qase.Store.Findings.{
  finding_statuses, severity_order, is_finding_status, Finding, status_or_open,
  normalize_finding_status, Fault, status_invalid, severity_invalid,
}

pub record Run : Type 0 where
  pub id : String
  pub owner : String
  pub mode : String
  pub findings : List Finding

-- A limit: a safe integer, which a negative one is as 0, or anything else.
pub record Query : Type 0 where
  pub owner : Option String
  pub status : Option String
  pub severity : Option String
  pub run_id : Option String
  -- after `trim` and `toLowerCase`, where it is a text that is not blank
  pub needle : Option Text
  pub limit : Option ℕ

pub record Row : Type 0 where
  pub run_id : String
  pub finding : Finding

-- `filter !== undefined && value !== filter` does not hold.
abbrev pub admits : Option String → String → Bool
admits none v = true
admits (some s) v = v == s

-- An empty owner is no filter.
abbrev pub owned : Option String → String → Bool
owned none v = true
owned (some s) v = (s == "") || (v == s)

abbrev pub haystack : Finding → Text
haystack f = f.title ++ 10 ∷ f.category ++ 10 ∷ f.url

abbrev pub found : (Text → Text) → Option Text → Finding → Bool
found lower none f = true
found lower (some t) f = includes t (lower (haystack f))

unfoldable pub takes_finding : (Text → Text) → Query → String → Finding → Bool
takes_finding lower q run_id f =
    admits q.status (get_or f.status "")
    && admits q.severity f.severity
    && admits q.run_id run_id
    && found lower q.needle f

unfoldable pub rows_of : (Text → Text) → ℕ → Query → Run → List Finding → List Row
rows_of lower now q r [] = []
rows_of lower now q r (f ∷ fs) =
    let g = normalize_finding_status now f in
    let rest = rows_of lower now q r fs in
    if takes_finding lower q r.id g then record { run_id = r.id; finding = g } ∷ rest else rest

unfoldable pub takes_run : Query → Run → Bool
takes_run q r = owned q.owner r.owner && (r.mode == "qa")

unfoldable pub collect : (Text → Text) → ℕ → Query → List Run → List Row
collect lower now q [] = []
collect lower now q (r ∷ rs) =
    let rest = collect lower now q rs in
    if takes_run q r then rows_of lower now q r r.findings ++ rest else rest

-- `indexOf` plus one, so that a severity that is not listed has 0.
abbrev pub index_of : ℕ → String → List String → ℕ
index_of n s [] = 0
index_of n s (x ∷ xs) = if x == s then suc n else index_of (suc n) s xs

abbrev pub rank : Row → ℕ
rank r = index_of 0 r.finding.severity severity_order

abbrev pub filed : Row → ℕ
filed r = get_or r.finding.ts 0

-- `a` may stand before `b`.
unfoldable pub comes_first : Row → Row → Bool
comes_first a b = ltb (rank a) (rank b) || (eqb (rank a) (rank b) && leb (filed b) (filed a))

-- The sort is stable.
unfoldable pub insert_row : Row → List Row → List Row
insert_row r [] = r ∷ []
insert_row r (x ∷ xs) = if comes_first r x then r ∷ x ∷ xs else x ∷ insert_row r xs

unfoldable pub sort_rows : List Row → List Row
sort_rows [] = []
sort_rows (r ∷ rs) = insert_row r (sort_rows rs)

unfoldable pub bounded : Option ℕ → ℕ
bounded none = 200
bounded (some n) = min 500 (max 1 n)

abbrev pub fault_status : Option String → Bool
fault_status none = false
fault_status (some s) = not (is_finding_status s)

abbrev pub fault_severity : Option String → Bool
fault_severity none = false
fault_severity (some s) = not (contains s severity_order)

unfoldable pub aggregate_session_findings :
    (Text → Text) → ℕ → Query → List Run → Result Fault (List Row)
aggregate_session_findings lower now q rs =
    if fault_status q.status
    then err status_invalid
    else if fault_severity q.severity
    then err severity_invalid
    else ok (take (bounded q.limit) (sort_rows (collect lower now q rs)))
