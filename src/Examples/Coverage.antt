-- ===== src/Examples/Coverage.antt =====
-- The coverage report of server/matrixCoverage.js over three items.
use qase.Common.{String, true, false, none, some, List, [], ◌∷◌, ◌≡◌, count, length}
use qase.Matrix.Item.{Status}
use qase.Matrix.Coverage.{Entry, passed, Reasons, states}
use qase.Matrix.Coverage.States.{all_states, is_passed, states_lem}

abbrev entry : Status → String → String → Entry
entry s platform browser = record {
  status = s;
  reason = some "Deselected by user.";
  error = none;
  platform = platform;
  device_type = none;
  browser_code = browser;
}

abbrev entries : List Entry
entries =
    entry Status.passed "ios" "safari"
    ∷ entry Status.not_run "ios" "ladybird"
    ∷ entry Status.failed "macos" "safari"
    ∷ []

abbrev reasons : Reasons
reasons = record {
  deselected = λ s. true;
  offline = λ s. false;
  health_check = λ s. false;
  browser = λ s. false;
}

states_lem_example :
    (all_states (states reasons entries) ≡ length entries)
    × (states reasons entries passed ≡ count is_passed entries)
states_lem_example = states_lem reasons entries
