-- ===== src/Examples/Attempts.antt =====
-- The throttle of server/authThrottle.js on a few attempts.
use qase.Common.{List, [], ◌∷◌, ◌≡◌, ◌-◌, min, refl, arith, Dict, get}
use qase.Throttle.{Window}
use qase.Throttle.Size.{Attempt}
use qase.Throttle.Limit.{tries, allowed, InWindow, allowed-eq-min}

-- Two keys, one attempt after the other.
abbrev calls : List Attempt
calls = (10, "a", 3) ∷ (11, "b", 3) ∷ (12, "a", 3) ∷ (13, "a", 3) ∷ []

-- The window of one key, with one attempt counted.
abbrev opened : Dict Window
opened = ("a", record { count = 1; expires = 900000 }) ∷ []

InWindow-calls : InWindow "a" 3 900000 calls
InWindow-calls = (
  (omega arith, λ e. refl),
  ((omega arith, λ e. refl), ((omega arith, λ e. refl), ((omega arith, λ e. refl), tt))),
)

allowed-eq-min_example : allowed "a" calls opened ≡ min (3 - 1) (tries "a" calls)
unfolding get
allowed-eq-min_example =
    allowed-eq-min "a" 3 calls opened {w = record { count = 1; expires = 900000 }} refl
      InWindow-calls (omega arith)
