-- ===== src/Keepalive/Awake.antt =====
-- How long server/keepalive.js pings.
use qase.Common.{
  ℕ, ◌+◌, ◌≤◌, ◌<◌, Bool, true, false, List, [], ◌∷◌, ◌≡◌, refl, sym, ap, ◌∙◌, subst, arith,
  Bool-cases, inl, inr, All,
}
use qase.Keepalive.{State, is_recent, renewed, tick}

-- The ticks of a timer that is set: their times and what the predicate answers.
abbrev pub Ticks : Type 0
Ticks = List (ℕ × Bool)

-- A timer that is not set does not fire.
abbrev pub fire : Bool → ℕ → ℕ → Bool → State → State
fire true quiet now a s = (tick quiet now a s).0
fire false quiet now a s = s

-- The state after the ticks, of which those after the timer's end do not take place.
unfoldable pub run_ticks : ℕ → Ticks → State → State
run_ticks quiet [] s = s
run_ticks quiet ((now, a) ∷ ts) s = run_ticks quiet ts (fire s.timer quiet now a s)

-- Every tick finds a run.
abbrev pub AllActive : Ticks → Type 0
AllActive ts = All (λ (t : ℕ × Bool). (0 < t.0) × (t.1 ≡ true)) ts

is_recent-renewed :
    (quiet now last : ℕ)
    → 0 < quiet
    → 0 < now
    → is_recent quiet now (renewed quiet now true last) ≡ true
is_recent-renewed quiet now last q n = elim (Bool-cases (is_recent quiet now last)) [
  | inl e ↦ rw (e, e) refl
  | inr e ↦ rw e (ground arith)
]

is_recent_past :
    (quiet now last : ℕ)
    → last + quiet ≤ now
    → is_recent quiet now (renewed quiet now false last) ≡ false
is_recent_past quiet now last h = ground arith

tick-timer :
    (quiet now : ℕ) (s : State)
    → 0 < quiet
    → 0 < now
    → s.timer ≡ true
    → ((tick quiet now true s).0.timer ≡ true) × ((tick quiet now true s).1 ≡ true)
unfolding tick
tick-timer quiet now s q n t =
    let r = is_recent-renewed quiet now s.last_active_at q n in (rw (r, t) refl, r)

-- As long as every tick finds a run, however long the bus has been quiet, the timer stays set and the next such tick
-- pings.
pub run_ticks-pings :
    (quiet : ℕ) (ts : Ticks) (s : State) (now : ℕ)
    → 0 < quiet
    → s.timer ≡ true
    → AllActive ts
    → 0 < now
    → ((run_ticks quiet ts s).timer ≡ true)
      × ((tick quiet now true (run_ticks quiet ts s)).1 ≡ true)
unfolding run_ticks
run_ticks-pings quiet [] s now q t a n = (t, (tick-timer quiet now s q n t).1)
run_ticks-pings quiet ((at, b) ∷ ts) s now q t ((k, e), rest) n = rw e (
    subst
      (λ z.
        ((run_ticks quiet ts z).timer ≡ true)
        × ((tick quiet now true (run_ticks quiet ts z)).1 ≡ true))
      (sym (ap (λ f. fire f quiet at true s) t))
      (run_ticks-pings quiet ts _ now q (tick-timer quiet at s q k t).0 rest n))

run_ticks-unset :
    (quiet : ℕ) (ts : Ticks) (s : State) → s.timer ≡ false → (run_ticks quiet ts s).timer ≡ false
unfolding run_ticks
run_ticks-unset quiet [] s t = t
run_ticks-unset quiet ((at, b) ∷ ts) s t =
    run_ticks-unset quiet ts _ (ap (λ f. (fire f quiet at b s).timer) t ∙ t)

timer_past :
    (quiet now : ℕ) (s : State)
    → s.last_active_at + quiet ≤ now
    → (tick quiet now false s).0.timer ≡ false
unfolding tick
timer_past quiet now s h = rw (is_recent_past quiet now s.last_active_at h) (ground arith)

-- A tick that finds no run, and no activity within the quiet time before it, unsets the timer, and no later tick pings
-- until activity is noted.
pub run_ticks-quiet :
    (quiet now : ℕ) (ts : Ticks) (s : State)
    → s.last_active_at + quiet ≤ now
    → (run_ticks quiet ((now, false) ∷ ts) s).timer ≡ false
unfolding run_ticks tick
run_ticks-quiet quiet now ts s h = elim (Bool-cases s.timer) [
  | inl e ↦
      run_ticks-unset quiet ts _
        (ap (λ f. (fire f quiet now false s).timer) e ∙ timer_past quiet now s h)
  | inr e ↦ run_ticks-unset quiet ts _ (ap (λ f. (fire f quiet now false s).timer) e ∙ e)
]
