-- ===== src/Throttle.antt =====
-- server/authThrottle.js: the fixed-window counter that limits authentication attempts. A `Map` in
-- insertion order; the keys are the digests that the caller makes.
pub mod Size
pub mod Limit
use qase.Common.{
  ℕ, zero, suc, ◌+◌, ◌-◌, ◌*◌, String, Bool, true, false, Option, none, some, List, [], ◌∷◌, ltb,
  leb, if◌then◌else◌, Dict, get, set, length,
}

pub record Window : Type 0 where
  pub count : ℕ
  pub expires : ℕ

-- WINDOW_MS and MAX_KEYS
abbrev pub window_ms : ℕ
window_ms = 15 * 60000

abbrev pub max_keys : ℕ
max_keys = 10000

-- Entries whose time has come are dropped.
unfoldable pub sweep : ℕ → Dict Window → Dict Window
sweep time [] = []
sweep time ((k, w) ∷ ws) = if leb w.expires time then sweep time ws else (k, w) ∷ sweep time ws

-- The loop that deletes the oldest `n` keys.
unfoldable pub evict : ℕ → Dict Window → Dict Window
evict n [] = []
evict zero (w ∷ ws) = w ∷ ws
evict (suc n) (w ∷ ws) = evict n ws

-- Room is made before a new key is added.
abbrev pub make_room : Dict Window → Dict Window
make_room ws = if leb max_keys (length ws) then evict (length ws - max_keys + 1) ws else ws

-- One attempt at `time`: whether it is allowed, and the windows after it.
pub attempt : ℕ → String → ℕ → Dict Window → Bool × Dict Window
attempt time key limit ws =
    let swept = sweep time ws in
    elim (get key swept) [
      | some w ↦ (leb (w.count + 1) limit, set key (record w { count = w.count + 1 }) swept)
      | none ↦ (
        leb 1 limit,
        set key (record { count = 1; expires = time + window_ms }) (make_room swept),
      )
    ]
