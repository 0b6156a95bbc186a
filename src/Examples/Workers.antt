-- ===== src/Examples/Workers.antt =====
-- The workers, the admission gate and the execution of one item, of server/matrixOrchestrator.js,
-- and the policy of server/matrixQuestionPolicy.js.
use qase.Common.{true, false, none, some, List, [], ◌∷◌, ◌≡◌}
use qase.Common.Result.{ok}
use qase.Matrix.Item.{Item, Status}
use qase.Matrix.Drain.{Gate, closed, acquire_slot, Reach, here, next, asks}
use qase.Matrix.Drain.Admission.{IsSound, Reach-IsSound}
use qase.Matrix.Policy.{Question, Hints}
use qase.Matrix.Launch.{World, passes, launches, done, execute_item}
use qase.Matrix.Launch.Verdict.{PassedFor, is_terminal, execute_item_settles}
use qase.Examples.Runs.{item}

-- With one slot: worker 1 holds it, and 2 and 3 wait.
abbrev crowded : Gate
crowded = record { slots_used = 1; wait_queue = 2 ∷ 3 ∷ []; holders = 1 ∷ [] }

Reach-crowded : Reach 1 closed crowded
unfolding acquire_slot
Reach-crowded =
    next (next (next here (asks 1 closed)) (asks 2 (acquire_slot 1 1 closed)))
      (asks 3 (acquire_slot 1 2 (acquire_slot 1 1 closed)))

Reach-IsSound_example : IsSound 1 crowded
Reach-IsSound_example = Reach-IsSound Reach-crowded

abbrev waiting : List Item
waiting = item "a" Status.queued ∷ item "b" Status.queued ∷ []

abbrev hints : Hints
hints = record {
  trim = λ s. s;
  is_credential_question = λ s os. false;
  destructive = λ s. false;
  authorization = λ s. true;
}

abbrev question : Question
question = record { question = "May I proceed?"; options = []; credential_like = false }

-- The session asks once, gets its answer, and passes.
abbrev world : World
world = record {
  gate = passes;
  launch = launches "session";
  send_task = ok tt;
  waits = λ n.
      ok (record { status = done; verdict = some "pass"; detail = none; pending_question = none });
  resumes = λ n. ok true;
  can_resume = true;
  policy = record { authorized = false; basis = none };
  hints = hints;
  blocked_reason = λ q. "Input needed.";
  verify_fixtures = ok tt;
  artifacts = [];
  findings = [];
  started_at = "now";
  finished_at = "later";
  duration_ms = 1000;
}

execute_item_settles_example :
    let i' = (execute_item world (item "a" Status.queued)).1 in
    PassedFor world i' × (is_terminal i'.status ≡ true)
execute_item_settles_example = execute_item_settles world (item "a" Status.queued)
