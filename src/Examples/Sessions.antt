-- ===== src/Examples/Sessions.antt =====
-- One device of server/deviceRuntime/manager.js with the sessions that use it and wait for it.
use qase.Common.{ℕ, true, none, some, List, [], ◌∷◌}
use qase.Device.Types.{
  simulated, Environment, SessionStatus, queued, running, done, Session, creates, starts, Provider,
  Device, busy, Manager,
}

abbrev pub phone : Environment
phone = record { env_id = some "phone"; device = none; platform = none; browser_code = none }

abbrev pub simulator : Provider
simulator = record {
  id = "local-simulation";
  supported_levels = simulated ∷ [];
  queueable = true;
  attests = none;
  create_session = λ e. creates none;
  start_session = λ s. starts (some running);
}

abbrev session : ℕ → SessionStatus → Session
session k status = record {
  id = k;
  environment = phone;
  level = simulated;
  provider_id = "local-simulation";
  status = status;
  queue = none;
  linked_run_id = none;
  linked_test_case_id = none;
  created_at = "then";
  started_at = none;
  ended_at = none;
  reason = none;
  attestation = none;
}

-- Session 1 holds the device.
abbrev held : Device
held = record {
  env_id = "phone";
  status = busy;
  current_session_id = some 1;
  last_tested_at = none;
  last_result = none;
  maximum_level = some simulated;
  unavailable_reason = none;
}

-- Session 0 is done, 1 runs, and those of `queue` wait.
abbrev manager : List ℕ → Manager
manager queue = record {
  session_counter = 2;
  devices = ("phone", held) ∷ [];
  sessions = (0, session 0 done) ∷ (1, session 1 running) ∷ (2, session 2 queued) ∷ [];
  queues = ("phone", queue) ∷ [];
}

abbrev simulators : List Provider
simulators = simulator ∷ []
