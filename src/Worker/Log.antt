-- ===== src/Worker/Log.antt =====
-- What is to hold of the log of the worker of server/distributedExecution.js, and of its states.
use qase.Common.{Bool, true, false, not, List, [], ◌∷◌, ◌&&◌, ◌||◌, ◌≡◌}
use qase.Worker.{
  leased, unheld, Entry, heartbeat, answer, stop_agent, agent_stopped, finished, store_secrets,
  ensure_runtime, run_turn, clear_secrets, Point, starting, cleaning, recording, ended, State,
}

-- The lease was confirmed by the latest entry.
abbrev pub is_confirmed : List Entry → Bool
is_confirmed (answer leased ∷ log) = true
is_confirmed _ = false

-- The runtime was started, and since then there were heartbeats only.
unfoldable pub is_ensured : List Entry → Bool
is_ensured (ensure_runtime ∷ log) = true
is_ensured (heartbeat ∷ log) = is_ensured log
is_ensured (answer p ∷ log) = is_ensured log
is_ensured (stop_agent ∷ log) = is_ensured log
is_ensured (agent_stopped ok ∷ log) = is_ensured log
is_ensured _ = false

-- The secrets and the runtime follow a confirmation directly, and the turn follows the runtime.
unfoldable pub is_fenced : List Entry → Bool
is_fenced [] = true
is_fenced (store_secrets ∷ log) = let rest = is_fenced log in is_confirmed log && rest
is_fenced (ensure_runtime ∷ log) = let rest = is_fenced log in is_confirmed log && rest
is_fenced (run_turn ∷ log) = let rest = is_fenced log in is_ensured log && rest
is_fenced (_ ∷ log) = is_fenced log

-- The agent has been stopped, or the execution has finished.
unfoldable pub is_over : List Entry → Bool
is_over [] = false
is_over (finished ∷ log) = true
is_over (agent_stopped true ∷ log) = true
is_over (_ ∷ log) = is_over log

-- Each answer by which the lease is not held is followed by a call that stops the agent, unless that is over. The first
-- argument says whether the entry before was such a call.
unfoldable pub is_stopping : Bool → List Entry → Bool
is_stopping b [] = true
is_stopping b (stop_agent ∷ log) = is_stopping true log
is_stopping b (answer leased ∷ log) = is_stopping false log
is_stopping b (answer (unheld l) ∷ log) =
    let rest = is_stopping false log in (b || is_over log) && rest
is_stopping b (_ ∷ log) = is_stopping false log

-- Whether the local runtime has the secrets.
unfoldable pub has_secrets : List Entry → Bool
has_secrets [] = false
has_secrets (store_secrets ∷ log) = true
has_secrets (clear_secrets ∷ log) = false
has_secrets (_ ∷ log) = has_secrets log

-- What holds at a point.
unfoldable pub is_right : Point → List Entry → Bool
is_right starting log = is_ensured log
is_right cleaning log = not (has_secrets log)
is_right recording log = not (has_secrets log)
is_right ended log = not (has_secrets log)
is_right _ log = true

abbrev pub IsKept : State → Type 0
IsKept s =
    (is_fenced s.log ≡ true)
    × (is_stopping false s.log ≡ true)
    × ((s.stop_completed || s.execution_finished) ≡ is_over s.log)

-- The invariant of the machine.
abbrev pub IsSound : State → Type 0
IsSound s = IsKept s × (is_right s.point s.log ≡ true)
