-- ===== src/Budget.antt =====
-- server/sqaBrowserBudget.js and server/securityPayloadBudget.js: guards that count the finished calls of a
-- session's browser tools and refuse more. Whether a name is that of a browser tool is an argument.
pub mod Bound
use qase.Common.{
  ℕ, suc, ◌+◌, String, Bool, true, false, not, Option, none, some, List, [], ◌∷◌, ◌++◌, ◌==◌, ◌&&◌,
  leb, eqb, count, any, contains, if◌then◌else◌, min, max,
}

-- An activity of the session.
pub record Activity : Type 0 where
  pub tool_name : Option String
  pub running : Bool

abbrev named : (String → Bool) → Option String → Bool
named counts none = false
named counts (some n) = counts n

-- `countSqaBrowserActivities` and `countSecurityPayloadActivities`, which differ in the names they count.
pub count_activities : (String → Bool) → List Activity → ℕ
count_activities counts acts = count (λ a. named counts a.tool_name && not a.running) acts

-- SECURITY_PAYLOAD_TOOL_NAMES
abbrev pub is_payload_tool : String → Bool
is_payload_tool n = contains n ("browser_fill" ∷ "browser_type" ∷ "browser_key" ∷ [])

-- `runHasSecurityChecks`; the argument is the test on the start of an identifier.
pub run_has_security_checks : (String → Bool) → Option (List String) → Bool
run_has_security_checks starts none = false
run_has_security_checks starts (some ids) = any starts ids

-- `configuredBudget`, of a number that is finite or not.
pub configured_budget : Option ℕ → ℕ
configured_budget none = 120
configured_budget (some n) = max 20 (min 500 n)

-- `clampSecurityPayloadLimit` of server/config.js, of a number that is finite and not negative, or not.
pub clamp_security_payload_limit : Option ℕ → ℕ
clamp_security_payload_limit none = 40
clamp_security_payload_limit (some n) = if eqb n 0 then 40 else min 200 n

-- What the guard answers to a call: the tool runs, or its budget is exhausted.
pub data Reply : Type 0 where
  runs : Reply
  exhausted : ℕ → ℕ → Reply

-- The guarded `run` of both files.
pub guard_run : (String → Bool) → ℕ → List Activity → Reply
unfolding count_activities
guard_run counts limit acts =
    let used = count_activities counts acts in if leb limit used then exhausted used limit else runs
