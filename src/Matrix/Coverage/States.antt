-- ===== src/Matrix/Coverage/States.antt =====
-- The states and gaps of the coverage report of server/matrixCoverage.js.
use qase.Common.{
  ℕ, suc, ◌+◌, Bool, true, false, List, [], ◌∷◌, ◌≡◌, refl, arith, count, length, filter,
  if◌then◌else◌, Bool-cases, ap, inl, inr,
}
use qase.Matrix.Item.{Status}
use qase.Matrix.Coverage.{
  Entry, State, passed, failed, environment_unavailable, browser_unavailable, device_offline,
  execution_failed, not_selected, not_supported, not_run, running, Reasons, coverage_state_of,
  count_states, add_state, states, gaps_of, is_gap,
}

abbrev pub is_passed : Entry → Bool
is_passed e = elim e.status [ Status.passed ↦ true | _ ↦ false ]

-- All the counts together.
abbrev pub all_states : (State → ℕ) → ℕ
all_states c =
    c passed
    + c failed
    + c environment_unavailable
    + c browser_unavailable
    + c device_offline
    + c execution_failed
    + c not_selected
    + c not_supported
    + c not_run
    + c running

all-add_state : (t : State) (c : State → ℕ) → all_states (add_state t c) ≡ all_states c + 1
all-add_state passed c = omega arith
all-add_state _ c = omega arith

all-count_states :
    (x : Reasons) (es : List Entry) (c : State → ℕ)
    → all_states (count_states x es c) ≡ all_states c + length es
unfolding count_states
all-count_states x [] c = omega arith
all-count_states x (e ∷ es) c = omega (
  arith,
  all-count_states x es (add_state (coverage_state_of x e) c),
  all-add_state (coverage_state_of x e) c,
)

-- Only a PASSED item is in the state Tested-Passed.
add_state_passed :
    (x : Reasons) (e : Entry) (c : State → ℕ)
    → add_state (coverage_state_of x e) c passed ≡ (if is_passed e then c passed + 1 else c passed)
unfolding coverage_state_of
add_state_passed x e c = ground arith

count_passed :
    (x : Reasons) (es : List Entry) (c : State → ℕ)
    → count_states x es c passed ≡ c passed + count is_passed es
unfolding count_states count
count_passed x [] c = omega arith
count_passed x (e ∷ es) c =
    ground (arith, count_passed x es (add_state (coverage_state_of x e) c), add_state_passed x e c)

-- A run lists as a gap each of its items that neither passed nor failed nor is running, and no
-- other.
pub length-gaps_of :
    (x : Reasons) (es : List Entry) → length (gaps_of x es) ≡ count (λ e. is_gap e.status) es
unfolding gaps_of count filter
length-gaps_of x [] = refl
length-gaps_of x (e ∷ es) = elim (Bool-cases (is_gap e.status)) [
  | inl h ↦ rw h (ap suc (length-gaps_of x es))
  | inr h ↦ rw h (length-gaps_of x es)
]

-- The report counts every item in exactly one state, and as Tested-Passed exactly the items whose
-- status is PASSED.
pub states_lem :
    (x : Reasons) (es : List Entry)
    → (all_states (states x es) ≡ length es) × (states x es passed ≡ count is_passed es)
unfolding states
states_lem x es =
    (omega (arith, all-count_states x es (λ s. 0)), omega (arith, count_passed x es (λ s. 0)))
