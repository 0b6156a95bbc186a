-- ===== src/Store/Timing/Clock.antt =====
-- The active time of server/store.js against a stopwatch.
use qase.Common.{ℕ, ◌+◌, ◌-◌, ◌≤◌, Option, none, some, List, [], ◌∷◌, ◌≡◌, refl, arith, get_or}
use qase.Store.Timing.{
  Status, idle, queued, running, awaiting_input, done, error, interrupted, Timing, untimed, once,
  since, close_pause, start_run, pause_at, pause, apply_status_timing, active_from, active_time,
}

-- A stopwatch: not started, counting, stopped, or over.
pub data Phase : Type 0 where
  before counting stopped over : Phase

abbrev pub next : Status → Phase → Phase
next running before = counting
next running stopped = counting
next idle counting = stopped
next interrupted counting = stopped
next done p = over
next error p = over
next _ p = p

-- The time counted so far and the time of the last event.
pub record Watch : Type 0 where
  pub phase : Phase
  pub elapsed : ℕ
  pub last : ℕ

abbrev pub counted : Phase → ℕ → ℕ
counted counting ms = ms
counted _ ms = 0

abbrev pub watch_time : ℕ → Watch → ℕ
watch_time now w = w.elapsed + counted w.phase (now - w.last)

abbrev pub observe : ℕ → Status → Watch → Watch
observe now s w = record { phase = next s w.phase; elapsed = watch_time now w; last = now }

-- The four fields that the active time is read off, against a stopwatch.
Fits : Option ℕ → Option ℕ → Option ℕ → ℕ → Phase → ℕ → ℕ → Type 0
Fits none none none paused before elapsed last = (elapsed ≡ 0) × (paused ≡ 0)
Fits (some s) none none paused counting elapsed last = s + paused + elapsed ≡ last
Fits (some s) none (some p) paused stopped elapsed last = (s + paused + elapsed ≡ p) × (p ≤ last)
Fits none (some c) none paused over elapsed last = (elapsed ≡ 0) × (c ≤ last)
Fits (some s) (some c) none paused over elapsed last = c - s - paused ≡ elapsed
Fits _ _ _ _ _ _ _ = ⊥

abbrev IsTimed : Timing → Watch → Type 0
IsTimed t w = Fits t.started_at t.completed_at t.paused_at t.paused w.phase w.elapsed w.last

unfoldable pub run_events : List (ℕ × Status) → Timing → Timing
run_events [] t = t
run_events ((now, s) ∷ es) t = run_events es (apply_status_timing now s t)

abbrev pub watch_events : List (ℕ × Status) → Watch → Watch
watch_events [] w = w
watch_events ((now, s) ∷ es) w = watch_events es (observe now s w)

-- The events come in the order of their times, after a time.
abbrev pub IsOrdered : ℕ → List (ℕ × Status) → Type 0
IsOrdered last [] = Unit
IsOrdered last ((now, s) ∷ es) = (last ≤ now) × IsOrdered now es

abbrev pub new_watch : Watch
new_watch = record { phase = before; elapsed = 0; last = 0 }

running-Fits :
    (now : ℕ) (a c p : Option ℕ) (paused : ℕ) (ph : Phase) (elapsed last : ℕ)
    → last ≤ now
    → Fits a c p paused ph elapsed last
    → Fits
        (once now a)
        c
        none
        (paused + since now p)
        (next running ph)
        (elapsed + counted ph (now - last))
        now
unfolding Fits
running-Fits now a c p paused ph elapsed last h f = ground arith

complete-Fits :
    (now : ℕ) (a c p : Option ℕ) (paused : ℕ) (ph : Phase) (elapsed last : ℕ)
    → last ≤ now
    → Fits a c p paused ph elapsed last
    → Fits a (once now c) none (paused + since now p) over (elapsed + counted ph (now - last)) now
unfolding Fits
complete-Fits now a c p paused ph elapsed last h f = ground arith

pause-Fits :
    (now : ℕ) (a c p : Option ℕ) (paused : ℕ) (ph : Phase) (elapsed last : ℕ)
    → last ≤ now
    → Fits a c p paused ph elapsed last
    → Fits a c (pause_at now a c p) paused (next idle ph) (elapsed + counted ph (now - last)) now
unfolding Fits
pause-Fits now a c p paused ph elapsed last h f = ground arith

keep-Fits :
    (now : ℕ) (a c p : Option ℕ) (paused : ℕ) (ph : Phase) (elapsed last : ℕ)
    → last ≤ now
    → Fits a c p paused ph elapsed last
    → Fits a c p paused ph (elapsed + counted ph (now - last)) now
unfolding Fits
keep-Fits now a c p paused ph elapsed last h f = ground arith

observe-IsTimed :
    (now : ℕ) (s : Status) (t : Timing) (w : Watch)
    → w.last ≤ now
    → IsTimed t w
    → IsTimed (apply_status_timing now s t) (observe now s w)
unfolding apply_status_timing close_pause start_run pause
observe-IsTimed now idle t w h f = pause-Fits now _ _ _ _ w.phase _ _ h f
observe-IsTimed now queued t w h f = keep-Fits now _ _ _ _ w.phase _ _ h f
observe-IsTimed now running t w h f = running-Fits now _ _ _ _ w.phase _ _ h f
observe-IsTimed now awaiting_input t w h f = keep-Fits now _ _ _ _ w.phase _ _ h f
observe-IsTimed now done t w h f = complete-Fits now _ _ _ _ w.phase _ _ h f
observe-IsTimed now error t w h f = complete-Fits now _ _ _ _ w.phase _ _ h f
observe-IsTimed now interrupted t w h f = pause-Fits now _ _ _ _ w.phase _ _ h f

run_events-IsTimed :
    (es : List (ℕ × Status)) (t : Timing) (w : Watch)
    → IsOrdered w.last es
    → IsTimed t w
    → IsTimed (run_events es t) (watch_events es w)
unfolding run_events
run_events-IsTimed [] t w h f = f
run_events-IsTimed ((now, s) ∷ es) t w (h, hs) f =
    run_events-IsTimed es _ _ hs (observe-IsTimed now s t w h f)

active_from-Fits :
    (now : ℕ) (a c p : Option ℕ) (paused : ℕ) (ph : Phase) (elapsed last : ℕ)
    → last ≤ now
    → Fits a c p paused ph elapsed last
    → get_or (active_from a p c now paused) 0 ≡ elapsed + counted ph (now - last)
unfolding Fits active_from
active_from-Fits now a c p paused ph elapsed last h f = ground arith

-- Along any sequence of status changes, in the order of their times, the active time of a session at a later time is
-- what a stopwatch shows that `running` starts, `idle` and `interrupted` stop, and `done` and `error` end for good;
-- `queued` and `awaiting_input` leave it as it is. Before the start it is undefined, which counts as 0.
pub active_time-run_events :
    (now : ℕ) (es : List (ℕ × Status))
    → IsOrdered 0 es
    → (watch_events es new_watch).last ≤ now
    → get_or (active_time now (run_events es untimed)) 0
      ≡ watch_time now (watch_events es new_watch)
unfolding active_time Fits
active_time-run_events now es ho h =
    active_from-Fits now _ _ _ _ (watch_events es new_watch).phase _ _ h
      (run_events-IsTimed es untimed new_watch ho (refl, refl))
