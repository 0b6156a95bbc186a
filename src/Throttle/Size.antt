-- ===== src/Throttle/Size.antt =====
-- The throttle of server/authThrottle.js never holds more than its bound of keys.
use qase.Common.{
  ℕ, zero, suc, ◌+◌, ◌-◌, ◌≤◌, String, List, [], ◌∷◌, ◌≡◌, arith, leb, Dict, get, set, length,
  Option-cases, Bool-cases, inl, inr, length-set_present, leb→le,
}
use qase.Throttle.{Window, max_keys, window_ms, sweep, evict, make_room, attempt}

pub length-sweep : (time : ℕ) (ws : Dict Window) → length (sweep time ws) ≤ length ws
unfolding sweep
length-sweep time [] = omega arith
length-sweep time ((k, w) ∷ ws) = ground (arith, length-sweep time ws)

length-evict : (n : ℕ) (ws : Dict Window) → length (evict n ws) ≡ length ws - n
unfolding evict
length-evict n [] = omega arith
length-evict zero (w ∷ ws) = omega arith
length-evict (suc n) (w ∷ ws) = omega (arith, length-evict n ws)

pub length-set : (k : String) (w : Window) (ws : Dict Window) → length (set k w ws) ≤ length ws + 1
unfolding set
length-set k w [] = omega arith
length-set k w ((j, v) ∷ ws) = ground (arith, length-set k w ws)

length-make_room : (ws : Dict Window) → length ws ≤ max_keys → length (make_room ws) + 1 ≤ max_keys
length-make_room ws h = elim (Bool-cases (leb max_keys (length ws))) [
  | inl e ↦ rw e (omega (arith, length-evict (length ws - max_keys + 1) ws, leb→le _ _ e))
  | inr e ↦ rw e (ground arith)
]

pub length-attempt :
    (time : ℕ) (key : String) (limit : ℕ) (ws : Dict Window)
    → length ws ≤ max_keys
    → length (attempt time key limit ws).1 ≤ max_keys
unfolding attempt
length-attempt time key limit ws h = elim (Option-cases (get key (sweep time ws))) [
  | inl e ↦
      rw (e, attempt)
        (omega (
          arith,
          length-sweep time ws,
          length-make_room (sweep time ws),
          length-set key (record { count = 1; expires = time + window_ms })
              (make_room (sweep time ws)),
        ))
  | inr (w, e) ↦
      rw (e, attempt)
        (omega (
          arith,
          length-sweep time ws,
          length-set_present key (record w { count = w.count + 1 }) w (sweep time ws) e,
        ))
]

-- One attempt: its time, its key and the limit of its route.
abbrev pub Attempt : Type 0
Attempt = ℕ × String × ℕ

pub attempts : List Attempt → Dict Window → Dict Window
attempts [] ws = ws
attempts ((time, key, limit) ∷ rest) ws = attempts rest (attempt time key limit ws).1

bounded :
    (calls : List Attempt) (ws : Dict Window)
    → length ws ≤ max_keys
    → length (attempts calls ws) ≤ max_keys
unfolding attempts
bounded [] ws h = h
bounded ((time, key, limit) ∷ rest) ws h =
    bounded rest (attempt time key limit ws).1 (length-attempt time key limit ws h)

-- However many attempts are made, with whatever keys and at whatever times, the throttle never
-- holds more than `max_keys` keys.
pub length-attempts : (calls : List Attempt) → length (attempts calls []) ≤ max_keys
length-attempts calls = bounded calls [] (omega arith)
