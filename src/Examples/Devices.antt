-- ===== src/Examples/Devices.antt =====
-- Calls of a new manager of server/deviceRuntime/manager.js.
use qase.Common.{String, true, none, List, [], ◌∷◌}
use qase.Device.Manager.Steps.{BusyIffHeld}
use qase.Device.Calls.{Call, requests, completes, cancels, run_calls, idle, run_calls-BusyIffHeld}
use qase.Examples.Sessions.{phone, simulator}

abbrev calls : List (String × Call)
calls =
    ("1", requests phone none none none true)
    ∷ ("2", requests phone none none none true)
    ∷ ("3", cancels 2)
    ∷ ("4", completes 1 none)
    ∷ []

run_calls-BusyIffHeld_example : BusyIffHeld (run_calls (simulator ∷ []) calls (idle 0))
run_calls-BusyIffHeld_example = run_calls-BusyIffHeld (simulator ∷ []) calls 0
