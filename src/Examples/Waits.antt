-- ===== src/Examples/Waits.antt =====
-- A session that is done at the third poll, and two ticks: server/matrixOrchestrator.js and server/keepalive.js.
use qase.Common.{◌+◌, ◌*◌, true, some, [], ◌∷◌, ◌≡◌, refl, arith, eqb, if◌then◌else◌}
use qase.Matrix.Wait.{Watched, wait_for_session}
use qase.Matrix.Wait.Ends.{EndsRight, wait_for_session-ends}
use qase.Keepalive.{State, tick, initial, note_active}
use qase.Keepalive.Awake.{Ticks, run_ticks, run_ticks-pings}

abbrev watched : Watched
watched = record {
  clock = λ k. 100 + 2500 * k;
  status = λ k. if eqb k 2 then some "done" else some "running";
}

wait_for_session-ends_example : EndsRight watched (90 + 60000) (wait_for_session watched 90 60000)
wait_for_session-ends_example =
    wait_for_session-ends watched 90 60000 (λ j. omega arith) (omega arith)

abbrev awake : State
awake = note_active 1000 initial

abbrev two_ticks : Ticks
two_ticks = (61000, true) ∷ (301000, true) ∷ []

run_ticks-pings_example :
    ((run_ticks 120000 two_ticks awake).timer ≡ true)
    × ((tick 120000 361000 true (run_ticks 120000 two_ticks awake)).1 ≡ true)
unfolding note_active
run_ticks-pings_example =
    run_ticks-pings 120000 two_ticks awake 361000 (omega arith) refl
      ((omega arith, refl), ((omega arith, refl), tt)) (omega arith)
