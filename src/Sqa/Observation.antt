-- ===== src/Sqa/Observation.antt =====
-- `normalizeText`, `normalizeEvidence`, `normalizeObservation` and the checks on the observations of
-- `validateSqaAssessmentInput` of server/sqaAssessment.js, for an input of the right shape. What the
-- language does with texts (trimming, length in UTF-16 units) and the two regular checks on a digest
-- and a timestamp are arguments.
pub mod Accepted
use qase.Common.{
  ℕ, String, Bool, true, false, Option, none, some, List, [], ◌∷◌, ◌==◌, ◌&&◌, ◌||◌, not, contains,
  ltb, length, if◌then◌else◌, is_some, map,
}
use qase.Common.Result.{Result, ok, err, ◌>>=◌}
use qase.Sqa.Types.{
  Status, pass, fail, blocked, not_assessed, Evidence, Observation, is_not_assessed, is_fail,
  is_blocked, Control,
}

pub record Texts : Type 0 where
  pub trim : String → String
  pub size : String → ℕ
  pub is_digest : String → Bool
  pub is_timestamp : String → Bool
  pub is_evidence_type : String → Bool

pub data Invalid : Type 0 where
  missing_text empty_text : Invalid
  too_long : ℕ → Invalid
  bad_digest bad_timestamp bad_type too_much_evidence no_rationale evidence_not_allowed : Invalid
  too_many_observations : Invalid
  out_of_scope duplicate : String → Invalid

module _ (t : Texts) where
  -- A text that is present: trimmed, and missing where nothing is left of it.
  unfoldable pub present_text : Bool → ℕ → String → Result Invalid (Option String)
  present_text required maximum value =
      let normalized = t.trim value in
      if required && (normalized == "")
      then err empty_text
      else if ltb maximum (t.size normalized)
      then err (too_long maximum)
      else if normalized == ""
      then ok none
      else ok (some normalized)

  -- `normalizeText`
  unfoldable pub normalize_text : Bool → ℕ → Option String → Result Invalid (Option String)
  normalize_text required maximum none = if required then err missing_text else ok none
  normalize_text required maximum (some value) = present_text required maximum value

  unfoldable pub required_text : ℕ → Option String → Result Invalid String
  required_text maximum value =
      normalize_text true maximum value >>= λ o. elim o [ none ↦ err empty_text | some s ↦ ok s ]

  unfoldable pub check_digest : Option String → Result Invalid (Unit {0})
  check_digest none = ok tt
  check_digest (some s) = if t.is_digest s then ok tt else err bad_digest

  unfoldable pub check_kind : String → Result Invalid (Unit {0})
  check_kind k = if t.is_evidence_type k then ok tt else err bad_type

  -- At most so many.
  unfoldable pub check_length : ℕ → ℕ → Invalid → Result Invalid (Unit {0})
  check_length maximum n refused = if ltb maximum n then err refused else ok tt

  -- `normalizeTimestamp(value, label, true)`, for a value that is there.
  unfoldable pub timestamp : Option String → Result Invalid (Option String)
  timestamp none = ok none
  timestamp (some value) = required_text 32 (some value) >>= λ s.
      if t.is_timestamp s then ok (some s) else err bad_timestamp

  -- `normalizeEvidence`
  unfoldable pub normalize_evidence : Evidence → Result Invalid Evidence
  normalize_evidence e = check_kind e.kind >>= λ _. normalize_text false 80 e.digest >>= λ digest.
      normalize_text false 1000 e.summary >>= λ summary. check_digest digest >>= λ _.
      required_text 512 (some e.reference) >>= λ reference.
      timestamp e.collected_at >>= λ collected_at. ok (record {
        kind = e.kind;
        reference = reference;
        summary = summary;
        digest = digest;
        collected_at = collected_at;
      })

  unfoldable pub normalize_each : List Evidence → Result Invalid (List Evidence)
  normalize_each [] = ok []
  normalize_each (e ∷ es) =
      normalize_evidence e >>= λ e'. normalize_each es >>= λ es'. ok (e' ∷ es')

  unfoldable pub is_empty : List Evidence → Bool
  is_empty [] = true
  is_empty (e ∷ es) = false

  unfoldable pub needs_rationale : Status → Bool
  needs_rationale fail = true
  needs_rationale blocked = true
  needs_rationale _ = false

  -- `normalizeObservation`
  unfoldable pub normalize_observation : Observation → Result Invalid Observation
  normalize_observation o = required_text 32 (some o.control_id) >>= λ control_id.
      check_length 100 (length o.evidence) too_much_evidence >>= λ _.
      normalize_each o.evidence >>= λ evidence.
      normalize_text false 2000 o.rationale >>= λ rationale.
      if needs_rationale o.status && not (is_some rationale)
      then err no_rationale
      else if is_not_assessed o.status && not (is_empty evidence)
      then err evidence_not_allowed
      else ok (record {
        control_id = control_id;
        status = o.status;
        rationale = rationale;
        evidence = evidence;
      })

  unfoldable pub normalize_all : List Observation → Result Invalid (List Observation)
  normalize_all [] = ok []
  normalize_all (o ∷ os) =
      normalize_observation o >>= λ o'. normalize_all os >>= λ os'. ok (o' ∷ os')

  -- The loop that refuses controls out of scope and second observations.
  unfoldable pub check_scope :
      List String → List String → List Observation → Result Invalid (Unit {0})
  check_scope applicable seen [] = ok tt
  check_scope applicable seen (o ∷ os) =
      let rest = check_scope applicable (o.control_id ∷ seen) os in
      if not (contains o.control_id applicable)
      then err (out_of_scope o.control_id)
      else if contains o.control_id seen
      then err (duplicate o.control_id)
      else rest

  -- The observations of `validateSqaAssessmentInput`.
  unfoldable pub validate_observations :
      List Control → List Observation → Result Invalid (List Observation)
  validate_observations controls os = check_length 1000 (length os) too_many_observations >>= λ _.
      normalize_all os >>= λ os'. check_scope (map (λ c. c.id) controls) [] os' >>= λ _. ok os'
