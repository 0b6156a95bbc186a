-- ===== src/Examples/Consents.antt =====
-- Destructive actions that are asked about, approved and repeated: server/browserPolicy.js.
use qase.Common.{ℕ, ◌*◌, ◌≤◌, none, List, [], ◌∷◌, ◌≡◌, refl, arith, any}
use qase.Browser.{
  v4, is_private_or_reserved_address, affirmative, Message, State, Action, approved,
  authorize_action, use_grant, settle_answer, latest_answer,
}
use qase.Browser.Private.{number, is_in, blocks, is_reserved_v4-blocks}
use qase.Browser.Consent.{
  run, allowed_of, approved_of, run_budget, IsConsented, authorize_action-IsConsented,
}

is_reserved_v4-blocks_example :
    is_private_or_reserved_address (v4 172 20 0 1) ≡ any (is_in (number 172 20 0 1)) blocks
is_reserved_v4-blocks_example =
    is_reserved_v4-blocks 172 20 0 1 (omega arith) (omega arith) (omega arith) (omega arith)

abbrev start : State
start = record { pending = none; grant = none }

abbrev delete_at : ℕ → List Message → Action
delete_at t ms = record {
  timestamp = t;
  category = "delete";
  location = "https://a.example";
  messages = ms;
}

abbrev yes : List Message
yes = record { ts = 20; answer = affirmative } ∷ []

abbrev actions : List Action
actions = delete_at 10 [] ∷ delete_at 30 yes ∷ delete_at 40 yes ∷ delete_at 50 yes ∷ []

run_budget_example :
    allowed_of (run 120000 actions start).0 ≤ 2 * approved_of (run 120000 actions start).0
run_budget_example = run_budget 120000 actions start refl

abbrev pending : State
pending = (authorize_action 120000 (delete_at 10 []) start).1

is_approved : (authorize_action 120000 (delete_at 30 yes) pending).0 ≡ approved
unfolding authorize_action use_grant settle_answer latest_answer
is_approved = refl

authorize_action-IsConsented_example : IsConsented (delete_at 30 yes) pending
authorize_action-IsConsented_example =
    authorize_action-IsConsented 120000 (delete_at 30 yes) pending is_approved
