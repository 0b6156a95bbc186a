-- ===== src/Device/Calls.antt =====
-- Sequences of calls of the manager of server/deviceRuntime/manager.js, each at its own time.
use qase.Common.{ℕ, String, Bool, Option, List, [], ◌∷◌}
use qase.Device.Types.{Level, Environment, Provider, Manager}
use qase.Device.Manager.{request_session, complete_session, cancel_session}
use qase.Device.Manager.Steps.{
  BusyIffHeld, request_session-BusyIffHeld, complete_session-BusyIffHeld,
  cancel_session-BusyIffHeld,
}

pub data Call : Type 0 where
  requests : Environment → Option Level → Option String → Option String → Bool → Call
  completes : ℕ → Option String → Call
  cancels : ℕ → Call

pub step : List Provider → String → Call → Manager → Manager
step ps now (requests e l run test_case allow_queue) m =
    (request_session ps now e l run test_case allow_queue m).0
step ps now (completes k result) m = (complete_session ps now k result m).0
step ps now (cancels k) m = (cancel_session ps now k m).0

pub run_calls : List Provider → List (String × Call) → Manager → Manager
run_calls ps [] m = m
run_calls ps ((now, c) ∷ cs) m = run_calls ps cs (step ps now c m)

-- A manager that has just been created.
abbrev pub idle : ℕ → Manager
idle counter = record { session_counter = counter; devices = []; sessions = []; queues = [] }

step-BusyIffHeld :
    (ps : List Provider) (now : String) (c : Call) (m : Manager)
    → BusyIffHeld m
    → BusyIffHeld (step ps now c m)
unfolding step
step-BusyIffHeld ps now (requests e l run test_case allow_queue) m h =
    request_session-BusyIffHeld ps now e l run test_case allow_queue m h
step-BusyIffHeld ps now (completes k result) m h = complete_session-BusyIffHeld ps now k result m h
step-BusyIffHeld ps now (cancels k) m h = cancel_session-BusyIffHeld ps now k m h

keeps-BusyIffHeld :
    (ps : List Provider) (cs : List (String × Call)) (m : Manager)
    → BusyIffHeld m
    → BusyIffHeld (run_calls ps cs m)
unfolding run_calls
keeps-BusyIffHeld ps [] m h = h
keeps-BusyIffHeld ps ((now, c) ∷ cs) m h =
    keeps-BusyIffHeld ps cs (step ps now c m) (step-BusyIffHeld ps now c m h)

-- After any sequence of requests, completions and cancellations, with providers that may decline,
-- throw or answer any status, every device is BUSY exactly if a session holds it.
pub run_calls-BusyIffHeld :
    (ps : List Provider) (cs : List (String × Call)) (counter : ℕ)
    → BusyIffHeld (run_calls ps cs (idle counter))
run_calls-BusyIffHeld ps cs counter = keeps-BusyIffHeld ps cs (idle counter) tt
