-- ===== src/Matrix/Policy.antt =====
-- server/matrixQuestionPolicy.js: which question of an unattended session may be answered. The
-- regular expressions of the file, `isCredentialQuestion` of public/questionPresentation.js and the
-- trimming of a text are arguments: what is proved holds whatever they match.
use Prim.Native.String.{◌++◌ as append}
use qase.Common.{
  String, Bool, true, false, Option, none, some, List, [], ◌∷◌, ◌≡◌, ◌↔◌, arith, not, ◌||◌,
  if◌then◌else◌, get_or, is_some,
}

pub record Question : Type 0 where
  pub question : String
  -- The labels of the options.
  pub options : List String
  pub credential_like : Bool

pub record Hints : Type 0 where
  pub trim : String → String
  pub is_credential_question : String → List String → Bool
  -- DESTRUCTIVE_HINT and AUTHORIZATION_HINT
  pub destructive : String → Bool
  pub authorization : String → Bool

pub record Policy : Type 0 where
  pub authorized : Bool
  pub basis : Option String

-- `deriveQuestionPolicy`: `confirmed` is `securityAuthorization?.confirmed === true`.
unfoldable pub derive_question_policy : Bool → Option String → Policy
derive_question_policy confirmed target_url = record {
  authorized = confirmed;
  basis =
      if confirmed
      then some (
          append "Operator confirmed the target" (
            append (elim target_url [ none ↦ "" | some url ↦ append " " url ])
              " is an explicitly authorized, isolated test environment at run setup."))
      else none;
}

-- `[text, ...labels].join(' ')`
unfoldable pub join_words : String → List String → String
join_words text [] = text
join_words text (o ∷ os) = join_words (append text (append " " o)) os

pub record Answer : Type 0 where
  pub answer : String
  pub basis : String

-- `autoAnswerFor` for a question that is there.
unfoldable pub auto_answer_for : Hints → Policy → Question → Option Answer
auto_answer_for h p q =
    let text = h.trim q.question in
    let haystack = join_words text q.options in
    if q.credential_like || h.is_credential_question text q.options
    then none
    else if h.destructive haystack
    then none
    else if not p.authorized || not (h.authorization haystack)
    then none
    else some (record {
      answer = append "Yes — proceed. " (
          append (get_or p.basis "The operator authorized this target at run setup.")
            " This matrix run is unattended; continue without asking again for this authorization.");
      basis = get_or p.basis "Authorized at run setup.";
    })

-- A question is answered without a person exactly if the operator confirmed the authorization and
-- the question asks for it, is not about credentials and confirms nothing destructive.
pub auto_answer_for_iff :
    (h : Hints) (confirmed : Bool) (target_url : Option String) (q : Question)
    → let text = h.trim q.question in
      let haystack = join_words text q.options in
      (is_some (auto_answer_for h (derive_question_policy confirmed target_url) q) ≡ true) ↔ (
        (confirmed ≡ true)
        × (h.authorization haystack ≡ true)
        × (h.destructive haystack ≡ false)
        × (q.credential_like ≡ false)
        × (h.is_credential_question text q.options ≡ false))
unfolding auto_answer_for derive_question_policy
auto_answer_for_iff h confirmed target_url q = ((λ e. ground arith), (λ e. ground arith))
