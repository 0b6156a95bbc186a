-- ===== src/Sqa/Types.antt =====
-- The data of server/sqaCatalog.js and server/sqaAssessment.js: controls, evidence, observations and
-- results. Titles, descriptions and other texts that no decision reads are left out.
use qase.Common.{ℕ, String, Bool, Option, List, true, false}

pub data Severity : Type 0 where
  critical high medium low : Severity

-- SQA_ASSESSMENT_STATUSES
pub data Status : Type 0 where
  pass fail blocked not_assessed : Status

pub data Mode : Type 0 where
  always any_of all_of : Mode

pub record Requirement : Type 0 where
  pub id : String
  pub kind : String
  pub minimum : ℕ

pub record Control : Type 0 where
  pub id : String
  pub severity : Severity
  pub mandatory : Bool
  pub profiles : List String
  pub mode : Mode
  pub attributes : List String
  pub requirements : List Requirement
  pub sources : List String

-- An item of evidence; `kind` is its `type`.
pub record Evidence : Type 0 where
  pub kind : String
  pub reference : String
  pub summary : Option String
  pub digest : Option String
  pub collected_at : Option String

pub record Observation : Type 0 where
  pub control_id : String
  pub status : Status
  pub rationale : Option String
  pub evidence : List Evidence

-- `evidenceCoverage`: how many requirements there are, how many are met, and which are not.
pub record Coverage : Type 0 where
  pub required : ℕ
  pub satisfied : ℕ
  pub missing : List String

pub data Note : Type 0 where
  lacks_required : List String → Note
  lacks_artifact lacks_matching : Note

pub record ControlResult : Type 0 where
  pub control_id : String
  pub severity : Severity
  pub mandatory : Bool
  pub status : Status
  pub claimed_status : Status
  pub rationale : Option String
  pub notes : List Note
  pub evidence : List Evidence
  pub coverage : Coverage
  pub sources : List String

abbrev pub is_pass : Status → Bool
is_pass pass = true
is_pass _ = false

abbrev pub is_fail : Status → Bool
is_fail fail = true
is_fail _ = false

abbrev pub is_blocked : Status → Bool
is_blocked blocked = true
is_blocked _ = false

abbrev pub is_not_assessed : Status → Bool
is_not_assessed not_assessed = true
is_not_assessed _ = false

-- `['blocked', 'not_assessed'].includes(status)`
abbrev pub is_open : Status → Bool
is_open blocked = true
is_open not_assessed = true
is_open _ = false

abbrev pub is_critical : Severity → Bool
is_critical critical = true
is_critical _ = false

abbrev pub is_high : Severity → Bool
is_high high = true
is_high _ = false

abbrev pub is_medium : Severity → Bool
is_medium medium = true
is_medium _ = false

abbrev pub is_low : Severity → Bool
is_low low = true
is_low _ = false
