-- ===== src/Examples/Reports.antt =====
-- Bugs of server/bugService.js: one that is stored, and one that is reported.
use qase.Common.{suc, none, some, [], ◌∷◌, ◌≡◌, refl, Dict, get, length, contains, any}
use qase.Common.Result.{ok}
use qase.Bugs.{
  Texts, Input, Fields, Links, Bug, normalize_bug_input, fields_of, fault, trim_steps, create,
}
use qase.Bugs.Number.{IsKeyed, create_is_new}
use qase.Examples.Tally.{tally, read, read-tally}

abbrev texts : Texts
texts = record { trim = λ s. s; lower = λ s. s; size = λ s. 3; number_of = read; name_of = tally }

abbrev report : Input
report = record {
  title = some "Login fails";
  description = none;
  severity = some "high";
  status = none;
  category = none;
  expected = none;
  actual = none;
  steps = some ("Open" ∷ "" ∷ []);
}

abbrev fields : Fields
fields = record {
  title = "Login fails";
  description = none;
  severity = "high";
  status = "open";
  category = none;
  expected = none;
  actual = none;
  steps = "Open" ∷ [];
}

abbrev links : Links
links = record {
  environment_id = none;
  environment_snapshot = none;
  execution_level = none;
  linked_run_id = none;
  linked_test_case_id = none;
}

abbrev bug : Bug
bug = record { id = "b"; bug_number = "BUG-0001"; fields = fields; links = links }

abbrev bugs : Dict Bug
bugs = ("BUG-0001", bug) ∷ []

normal : normalize_bug_input texts report ≡ ok fields
unfolding normalize_bug_input fields_of fault trim_steps contains any
normal = refl

get-bug : get "BUG-0001" bugs ≡ some bug
unfolding get
get-bug = refl

create_is_new_example :
    let o = create texts "c" report links bugs in
    (b : Bug) × (o.0 ≡ ok b)
    × (get b.bug_number bugs ≡ none)
    × (get b.bug_number o.1 ≡ some b)
    × (length o.1 ≡ suc (length bugs))
    × IsKeyed o.1
create_is_new_example =
    create_is_new texts "c" report links bugs fields read-tally (refl, tt) normal
