-- ===== src/Worker.antt =====
-- server/distributedExecution.js: `runOnce` of the execution worker, for a job that it has claimed, as a machine. Its
-- events are the interval of the heartbeat and the answers of the queue, the store, the vaults and the agent, in any
-- order in which they may arrive; the calls that it makes and the answers to its heartbeats are its log, the latest
-- first. What stands between two events runs to its end, as the code between two waits does. The runs that
-- `markExhausted` reports and the loop of the worker are left out.
pub mod Turns
pub mod Log
pub mod Beats
pub mod Fenced
use qase.Common.{String, Bool, true, false, not, List, [], ◌∷◌, ◌&&◌, ◌||◌, if◌then◌else◌}

-- How `queue.heartbeat` answers where the lease is not confirmed: with another status, or by failing.
pub data Loss : Type 0 where
  lost unreachable : Loss

pub data Pulse : Type 0 where
  leased : Pulse
  unheld : Loss → Pulse

-- How the promise of `pulseLease` ends.
pub data Outcome : Type 0 where
  holds gone thrown : Outcome

pub data Entry : Type 0 where
  heartbeat : Entry
  answer : Pulse → Entry
  stop_agent : Entry
  agent_stopped : Bool → Entry
  -- `executionFinished = true`
  finished : Entry
  complete fail read_run read_values store_secrets ensure_runtime run_turn add_error_message : Entry
  set_error clear_secrets clear_vault purge_artifacts : Entry
  -- whether the cleanup failed
  record_cleanup : Bool → Entry

-- `heartbeatBusy`: no heartbeat is in flight, it waits for the queue, or for `requestStop` after an answer.
pub data Beat : Type 0 where
  quiet asked : Beat
  stopping : Loss → Beat

-- The three places at which `runOnce` waits for `pulseLease`.
pub data Gate : Type 0 where
  first second third : Gate

-- What `runOnce` waits for.
pub data Point : Type 0 where
  awaiting : Gate → Point
  reading_run reading_values storing starting running draining completing failing : Point
  looking_up messaging marking draining_at_end last_lookup cleaning recording ended : Point

-- How a call ends that `runOnce` waits for. `other` is a run that is missing, a failure that is put back in the queue.
pub data Reply : Type 0 where
  good other threw : Reply

pub data Event : Type 0 where
  tick : Event
  answered : Pulse → Event
  stopped : Bool → Event
  replied : Reply → Event

-- What the worker has: a credential vault, a method `recordCleanup`, and the status of its session after the turn.
pub record Setting : Type 0 where
  pub has_vault : Bool
  pub can_record : Bool
  pub status : String

pub record State : Type 0 where
  pub point : Point
  pub beat : Beat
  pub execution_finished : Bool
  pub stop_completed : Bool
  -- `session`, `runDeleted`
  pub has_session : Bool
  pub run_deleted : Bool
  pub log : List Entry

abbrev pub note : Entry → State → State
note e s = record s { log = e ∷ s.log }

-- A call is made, and waited for.
abbrev pub send : Entry → Point → State → State
send e p s = record s { point = p; log = e ∷ s.log }

-- `pulseLease`, up to its wait: a heartbeat in flight is shared.
abbrev pub pulse : Beat → State → State
pulse quiet s = record s { beat = asked; log = heartbeat ∷ s.log }
pulse asked s = s
pulse (stopping p) s = s

-- `await pulseLease()`
abbrev pub check : Gate → State → State
check g s = pulse s.beat (record s { point = awaiting g })

-- `executionFinished = true`
abbrev pub finish : State → State
finish s = record s { execution_finished = true; log = finished ∷ s.log }

abbrev pub drain : Beat → Entry → Point → Point → State → State
drain quiet e p q s = send e p s
drain asked e p q s = record s { point = q }
drain (stopping x) e p q s = record s { point = q }

-- After the work: `await heartbeatPromise`, then `queue.complete`.
abbrev pub finish_work : State → State
finish_work s = drain s.beat complete completing draining (finish s)

-- The start of the `finally`: `await heartbeatPromise`, then the lookup of the run.
abbrev pub finish_all : State → State
finish_all s = drain s.beat read_run last_lookup draining_at_end (finish s)

-- The start of the `catch`.
abbrev pub catch_error : State → State
catch_error s = send fail failing s

-- `if (await pulseLease() !== 'leased')`, at its three places.
unfoldable pub pass_gate : Gate → Outcome → State → State
pass_gate first holds s = send read_run reading_run s
pass_gate first gone s = send complete completing s
pass_gate second holds s = send store_secrets storing s
pass_gate second gone s = finish_work s
pass_gate third holds s = send ensure_runtime starting s
pass_gate third gone s = finish_work s
pass_gate first thrown s = catch_error s
pass_gate second thrown s = catch_error s
pass_gate third thrown s = catch_error s

-- The promise of `pulseLease` ends, and what waits for it goes on.
unfoldable pub resume : Point → Outcome → State → State
unfolding pass_gate
resume (awaiting g) o s = pass_gate g o s
resume draining o s = send complete completing s
resume draining_at_end o s = send read_run last_lookup s
resume _ o s = s

unfoldable pub settle : Outcome → State → State
unfolding resume
settle o s = resume s.point o (record s { beat = quiet })

-- How the promise ends for an answer, where `requestStop` succeeds or not.
abbrev pub outcome : Loss → Bool → Outcome
outcome lost true = gone
outcome lost false = thrown
outcome unreachable ok = thrown

-- `requestStop`: the agent is stopped but where it is stopped already, or the execution has finished.
abbrev pub request_stop : Loss → State → State
request_stop l s =
    if s.stop_completed || s.execution_finished
    then settle (outcome l true) s
    else record s { beat = stopping l; log = stop_agent ∷ s.log }

abbrev pub take_answer : Pulse → State → State
take_answer leased s = settle holds s
take_answer (unheld l) s = request_stop l s

-- The queue answers a heartbeat.
unfoldable pub on_answer : Beat → Pulse → State → State
unfolding settle
on_answer asked p s = take_answer p (note (answer p) s)
on_answer quiet p s = s
on_answer (stopping q) p s = s

-- `agent.stop` ends.
unfoldable pub on_stopped : Beat → Bool → State → State
unfolding settle
on_stopped (stopping p) ok s =
    settle (outcome p ok)
      (record s { stop_completed = s.stop_completed || ok; log = agent_stopped ok ∷ s.log })
on_stopped quiet ok s = s
on_stopped asked ok s = s

-- `scheduleHeartbeat`
unfoldable pub on_tick : State → State
on_tick s = if s.execution_finished then s else pulse s.beat s
