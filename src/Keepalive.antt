-- ===== src/Keepalive.antt =====
-- server/keepalive.js: `createRunKeepalive` as a state machine. Times are in milliseconds; the ping itself, with the
-- lookup of the public address, is left out: a tick says whether it pings.
pub mod Awake
use qase.Common.{
  ℕ, ◌+◌, ◌-◌, Bool, true, false, not, Option, none, some, List, [], ◌∷◌, ◌&&◌, ◌||◌, ltb,
  if◌then◌else◌,
}

pub record State : Type 0 where
  -- the timer is set
  pub timer : Bool
  pub last_active_at : ℕ
  pub stopped : Bool

abbrev pub initial : State
initial = record { timer = false; last_active_at = 0; stopped = false }

-- `noteActive`
unfoldable pub note_active : ℕ → State → State
note_active now s = if s.stopped then s else record s { last_active_at = now; timer = true }

-- `lastActiveAt > 0 && Date.now() - lastActiveAt < quietAfterMs`
abbrev pub is_recent : ℕ → ℕ → ℕ → Bool
is_recent quiet now last = ltb 0 last && ltb (now - last) quiet

-- The time of the last activity after the predicate on the runs has been asked.
abbrev pub renewed : ℕ → ℕ → Bool → ℕ → ℕ
renewed quiet now is_active last = if not (is_recent quiet now last) && is_active then now else last

-- `tick`, with what the predicate `isActive` answers: the state, and whether the tick pings.
unfoldable pub tick : ℕ → ℕ → Bool → State → State × Bool
tick quiet now is_active s =
    let last = renewed quiet now is_active s.last_active_at in
    let active = is_recent quiet now last in
    (record s { last_active_at = last; timer = s.timer && active }, active)

-- `stop`
unfoldable pub stop : State → State
stop s = record s { stopped = true; timer = false }
