-- ===== src/Examples/Guards.antt =====
-- Three calls under a limit of two: server/securityPayloadBudget.js.
use qase.Common.{
  ℕ, zero, suc, String, false, List, [], ◌∷◌, ◌≤◌, ◌≡◌, refl, contains, arith, length, All, map,
}
use qase.Budget.{is_payload_tool, guard_run, runs}
use qase.Budget.Bound.{executed, executed_within, ended, guard_run-forgets}
use qase.Store.Feed.{add_activities}

abbrev calls : List String
calls = "browser_fill" ∷ "browser_type" ∷ "browser_fill" ∷ []

executed_within_example : executed is_payload_tool 2 calls [] ≤ 2
unfolding contains
executed_within_example = executed_within is_payload_tool 2 calls (omega arith)

abbrev clicks : ℕ → List String
clicks zero = []
clicks (suc n) = "browser_click" ∷ clicks n

clicks_uncounted : (n : ℕ) → All (λ t. is_payload_tool t ≡ false) (clicks n)
unfolding contains
clicks_uncounted zero = tt
clicks_uncounted (suc n) = (refl, clicks_uncounted n)

length-clicks : (n : ℕ) → length (clicks n) ≡ n
length-clicks zero = refl
length-clicks (suc n) = omega (arith, length-clicks n)

guard_run-forgets_example :
    guard_run is_payload_tool 2 (add_activities (map ended (clicks 500)) (map ended calls)) ≡ runs
guard_run-forgets_example =
    guard_run-forgets is_payload_tool 2 (clicks 500) (map ended calls) (omega arith) (omega arith)
      (clicks_uncounted 500) (omega (arith, length-clicks 500))
