-- ===== src/Invites/Admission.antt =====
-- What server/invites.js promises of an invite code: it admits at most once, and a registration that
-- fails early gives it back.
use qase.Common.{
  ℕ, ◌<◌, String, true, Option, none, some, List, ltb, ◌≡◌, refl, is_some, Bool-cases, inl, inr,
}
use qase.Common.Result.{ok}
use qase.Invites.{
  Invite, Texts, find_invite, set_used, consume, registers, throws, is_releasable, is_free,
  admitted, settle_registration, redeem,
}
use qase.Invites.Single.{
  Call, run_calls, IsSpent, IsRefused, find-set_used_self, find_free, run_calls-IsSpent, spent_lem,
  consume_spends, redeem_spends,
}

-- The store refuses every code with the normal form of a spent one, whatever calls have come between.
IsRefused-after :
    (t : Texts) (ttl_ms : ℕ) (code : String) (s : List Invite)
    → IsSpent t code s
    → (cs : List (ℕ × Call)) (later : ℕ) (raw : String) → t.normalize raw ≡ code
    → IsRefused t later raw (run_calls t ttl_ms cs s)
IsRefused-after t ttl_ms code s h cs later raw e =
    spent_lem t later raw (run_calls t ttl_ms cs s) (rw e (run_calls-IsSpent t ttl_ms code cs s h))

-- Once a registration with an invite code has been admitted, at a time other than zero, and whatever
-- invites have been created, consumed and redeemed since, at whatever times: a code with the same
-- normal form is not validated, not consumed and not redeemed, and the attempt changes nothing.
pub redeem_once :
    (t : Texts) (ttl_ms now : ℕ) (raw email : String) (s : List Invite)
    → 0 < now
    → (redeem t now raw email registers s).0 ≡ admitted
    → (cs : List (ℕ × Call)) (later : ℕ) (again : String) → t.normalize again ≡ t.normalize raw
    → IsRefused t later again (run_calls t ttl_ms cs (redeem t now raw email registers s).1)
redeem_once t ttl_ms now raw email s p h =
    IsRefused-after t ttl_ms (t.normalize raw) (redeem t now raw email registers s).1
      (redeem_spends t now raw email s p h)

-- The same of a code that was consumed, at a time other than zero: after any further calls it is not
-- validated, not consumed and not redeemed again.
consume_once :
    (t : Texts) (ttl_ms now : ℕ) (raw : String) (used_by : Option String) (s : List Invite)
    → 0 < now
    → (consume t now raw used_by s).0 ≡ ok tt
    → (cs : List (ℕ × Call)) (later : ℕ) (again : String) → t.normalize again ≡ t.normalize raw
    → IsRefused t later again (run_calls t ttl_ms cs (consume t now raw used_by s).1)
consume_once t ttl_ms now raw used_by s p h =
    IsRefused-after t ttl_ms (t.normalize raw) (consume t now raw used_by s).1
      (consume_spends t now raw used_by s p h)

free_again : (now : ℕ) (i : Invite) → is_free now (some i) ≡ true → ltb now i.expires_at ≡ true
free_again now i h = elim (Bool-cases (is_some i.used_at)) [
  | inl e ↦ absurd (cc (rw e at h))
  | inr e ↦ rw e at h
]

-- When the registration of a free code throws, the code is free afterwards, at the same time, exactly
-- if the error is one of those that come before an account exists; after any other error it is not.
pub redeem-throws :
    (t : Texts) (now : ℕ) (raw email : String) (x : Option String) (s : List Invite)
    → is_free now (find_invite t (t.normalize raw) s) ≡ true
    → is_free now (find_invite t (t.normalize raw) (redeem t now raw email (throws x) s).1)
      ≡ is_releasable x
unfolding redeem settle_registration
redeem-throws t now raw email x s h =
    let code = t.normalize raw in
    let f = find_free now (find_invite t code s) h in
    let a = find-set_used_self t code (some now) (some email) s f.1 in
    let e : is_free now (some f.0) ≡ true = rw f.1 at h in
    elim (Bool-cases (is_releasable x)) [
      | inl r ↦
          let b =
            find-set_used_self t code none none (set_used t code (some now) (some email) s) a in
          rw (h, r, b) (free_again now f.0 e)
      | inr r ↦ rw (h, r, a) refl
    ]
