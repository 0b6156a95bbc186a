-- ===== src/Worker/Beats.antt =====
-- The heartbeats of the worker of server/distributedExecution.js keep its states sound.
use qase.Common.{
  Bool, true, false, List, ◌∷◌, ◌||◌, ◌≡◌, refl, arith, ◌∙◌, sym, Bool-cases, inl, inr,
  if◌then◌else◌,
}
use qase.Worker.{
  Loss, Pulse, leased, unheld, Outcome, holds, gone, thrown, Entry, heartbeat, answer, stop_agent,
  agent_stopped, complete, read_run, Beat, quiet, asked, stopping, Gate, first, second, third,
  Point, awaiting, reading_run, reading_values, storing, starting, running, draining, completing,
  failing, looking_up, messaging, marking, draining_at_end, last_lookup, cleaning, recording, ended,
  State, pulse, check, finish, finish_work, finish_all, catch_error, drain, pass_gate, resume,
  settle, outcome, request_stop, on_tick, on_answer, on_stopped,
}
use qase.Worker.Log.{
  is_confirmed, is_ensured, is_fenced, is_over, is_stopping, has_secrets, is_right, IsKept, IsSound,
}

is_right-heartbeat :
    (p : Point) (log : List Entry) → is_right p log ≡ true → is_right p (heartbeat ∷ log) ≡ true
unfolding is_right is_ensured has_secrets
is_right-heartbeat p log h = ground arith

is_right-answer :
    (p : Point) (a : Pulse) (log : List Entry)
    → is_right p log ≡ true
    → is_right p (answer a ∷ log) ≡ true
unfolding is_right is_ensured has_secrets
is_right-answer p a log h = ground arith

is_right-stop_agent :
    (p : Point) (log : List Entry) → is_right p log ≡ true → is_right p (stop_agent ∷ log) ≡ true
unfolding is_right is_ensured has_secrets
is_right-stop_agent p log h = ground arith

is_right-agent_stopped :
    (p : Point) (ok : Bool) (log : List Entry)
    → is_right p log ≡ true
    → is_right p (agent_stopped ok ∷ log) ≡ true
unfolding is_right is_ensured has_secrets
is_right-agent_stopped p ok log h = ground arith

pub pulse-IsSound : (b : Beat) (s : State) → IsSound s → IsSound (pulse b s)
unfolding is_fenced is_stopping is_over
pulse-IsSound quiet s (k, r) = (k, is_right-heartbeat s.point s.log r)
pulse-IsSound asked s h = h
pulse-IsSound (stopping p) s h = h

pub check-IsSound : (g : Gate) (s : State) → IsKept s → IsSound (check g s)
unfolding is_right
check-IsSound g s k = pulse-IsSound s.beat (record s { point = awaiting g }) (k, refl)

finish-IsKept : (s : State) → IsKept s → IsKept (finish s)
unfolding is_fenced is_stopping is_over
finish-IsKept s (f, t, o) = (f, t, ground arith)

drain_work-IsSound :
    (b : Beat) (s : State) → IsKept s → IsSound (drain b complete completing draining s)
unfolding is_fenced is_stopping is_over is_right
drain_work-IsSound quiet s k = (k, refl)
drain_work-IsSound asked s k = (k, refl)
drain_work-IsSound (stopping p) s k = (k, refl)

drain_all-IsSound :
    (b : Beat) (s : State) → IsKept s → IsSound (drain b read_run last_lookup draining_at_end s)
unfolding is_fenced is_stopping is_over is_right
drain_all-IsSound quiet s k = (k, refl)
drain_all-IsSound asked s k = (k, refl)
drain_all-IsSound (stopping p) s k = (k, refl)

pub finish_work-IsSound : (s : State) → IsKept s → IsSound (finish_work s)
finish_work-IsSound s k = drain_work-IsSound s.beat (finish s) (finish-IsKept s k)

pub finish_all-IsSound : (s : State) → IsKept s → IsSound (finish_all s)
finish_all-IsSound s k = drain_all-IsSound s.beat (finish s) (finish-IsKept s k)

pub catch_error-IsSound : (s : State) → IsKept s → IsSound (catch_error s)
unfolding is_fenced is_stopping is_over is_right
catch_error-IsSound s k = (k, refl)

-- A promise that ends with a lease has just been answered with one.
abbrev is_backed : Outcome → List Entry → Bool
is_backed holds log = is_confirmed log
is_backed gone log = true
is_backed thrown log = true

pass_gate-IsSound :
    (g : Gate) (o : Outcome) (s : State)
    → IsKept s
    → is_backed o s.log ≡ true
    → IsSound (pass_gate g o s)
unfolding pass_gate is_fenced is_stopping is_over is_right is_ensured
pass_gate-IsSound first holds s k b = (k, refl)
pass_gate-IsSound first gone s k b = (k, refl)
pass_gate-IsSound second holds s (f, t, o) b = ((rw (b, f) refl, t, o), refl)
pass_gate-IsSound second gone s k b = finish_work-IsSound s k
pass_gate-IsSound third holds s (f, t, o) b = ((rw (b, f) refl, t, o), refl)
pass_gate-IsSound third gone s k b = finish_work-IsSound s k
pass_gate-IsSound first thrown s k b = catch_error-IsSound s k
pass_gate-IsSound second thrown s k b = catch_error-IsSound s k
pass_gate-IsSound third thrown s k b = catch_error-IsSound s k

resume-IsSound :
    (p : Point) (o : Outcome) (s : State)
    → IsSound s
    → is_backed o s.log ≡ true
    → IsSound (resume p o s)
unfolding resume is_fenced is_stopping is_over is_right
resume-IsSound (awaiting g) o s (k, r) b = pass_gate-IsSound g o s k b
resume-IsSound draining o s (k, r) b = (k, refl)
resume-IsSound draining_at_end o s (k, r) b = (k, refl)
resume-IsSound reading_run o s h b = h
resume-IsSound reading_values o s h b = h
resume-IsSound storing o s h b = h
resume-IsSound starting o s h b = h
resume-IsSound running o s h b = h
resume-IsSound completing o s h b = h
resume-IsSound failing o s h b = h
resume-IsSound looking_up o s h b = h
resume-IsSound messaging o s h b = h
resume-IsSound marking o s h b = h
resume-IsSound last_lookup o s h b = h
resume-IsSound cleaning o s h b = h
resume-IsSound recording o s h b = h
resume-IsSound ended o s h b = h

settle-IsSound :
    (o : Outcome) (s : State) → IsSound s → is_backed o s.log ≡ true → IsSound (settle o s)
unfolding settle
settle-IsSound o s h b = resume-IsSound s.point o (record s { beat = quiet }) h b

outcome-is_backed : (l : Loss) (ok : Bool) (log : List Entry) → is_backed (outcome l ok) log ≡ true
outcome-is_backed l ok log = ground arith

request_stop-IsSound :
    (l : Loss) (s : State)
    → IsSound s
    → IsSound (request_stop l (record s { log = answer (unheld l) ∷ s.log }))
unfolding is_fenced is_stopping is_over
request_stop-IsSound l s ((f, t, o), r) =
    let a = is_right-answer s.point (unheld l) s.log r in
    elim (Bool-cases (s.stop_completed || s.execution_finished)) [
      | inl e ↦ rw e (
          settle-IsSound (outcome l true) (record s { log = answer (unheld l) ∷ s.log })
            ((f, rw (sym o ∙ e, t) refl, o), a)
            (outcome-is_backed l true (answer (unheld l) ∷ s.log)))
      | inr e ↦ rw e ((f, t, o), is_right-stop_agent s.point (answer (unheld l) ∷ s.log) a)
    ]

pub on_answer-IsSound : (b : Beat) (p : Pulse) (s : State) → IsSound s → IsSound (on_answer b p s)
unfolding on_answer is_fenced is_stopping is_over
on_answer-IsSound asked leased s (k, r) =
    settle-IsSound holds (record s { log = answer leased ∷ s.log })
      (k, is_right-answer s.point leased s.log r) refl
on_answer-IsSound asked (unheld l) s h = request_stop-IsSound l s h
on_answer-IsSound quiet p s h = h
on_answer-IsSound (stopping q) p s h = h

pub on_stopped-IsSound :
    (b : Beat) (ok : Bool) (s : State) → IsSound s → IsSound (on_stopped b ok s)
unfolding on_stopped is_fenced is_stopping is_over
on_stopped-IsSound (stopping l) ok s ((f, t, o), r) =
    settle-IsSound (outcome l ok)
      (record s { stop_completed = s.stop_completed || ok; log = agent_stopped ok ∷ s.log })
      ((f, t, ground arith), is_right-agent_stopped s.point ok s.log r)
      (outcome-is_backed l ok (agent_stopped ok ∷ s.log))
on_stopped-IsSound quiet ok s h = h
on_stopped-IsSound asked ok s h = h

pulse_unless-IsSound :
    (b : Bool) (s : State) → IsSound s → IsSound (if b then s else pulse s.beat s)
pulse_unless-IsSound true s h = h
pulse_unless-IsSound false s h = pulse-IsSound s.beat s h

pub on_tick-IsSound : (s : State) → IsSound s → IsSound (on_tick s)
unfolding on_tick
on_tick-IsSound s h = pulse_unless-IsSound s.execution_finished s h
