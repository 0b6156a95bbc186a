-- ===== src/Invites/Single.antt =====
-- An invite code of server/invites.js admits at most once.
use qase.Common.{
  ℕ, ◌<◌, String, true, false, Option, none, some, List, [], ◌∷◌, ◌++◌, ◌==◌, leb, ◌≡◌, refl, arith,
  length, is_some, Bool-cases, inl, inr, eq_iff, some_inj,
}
use qase.Common.Result.{Result, ok, err}
use qase.Invites.{
  Invite, Error, invalid_invite, Texts, Order, new_invite, max_invites, valid_note, add_invite,
  create, find_invite, set_used, is_truthy, is_alive, consume, validate, Registration, registers,
  throws, is_releasable, is_free, admitted, not_valid, settle_registration, redeem,
}

-- A call of the service at a time.
pub data Call : Type 0 where
  creates : Order → Call
  consumes : String → Option String → Call
  redeems : String → String → Registration → Call

module _ (t : Texts) (ttl_ms : ℕ) where
  pub step : ℕ × Call → List Invite → List Invite
  step (now, creates o) s = (create t ttl_ms now o s).1
  step (now, consumes raw used_by) s = (consume t now raw used_by s).1
  step (now, redeems raw email r) s = (redeem t now raw email r s).1

  pub run_calls : List (ℕ × Call) → List Invite → List Invite
  run_calls [] s = s
  run_calls (c ∷ cs) s = run_calls cs (step c s)

-- The invite that the code finds has been used.
abbrev pub IsSpent : Texts → String → List Invite → Type 0
IsSpent t code s = (i : Invite) × (find_invite t code s ≡ some i) × (is_truthy i.used_at ≡ true)

find-append :
    (t : Texts) (code : String) (s : List Invite) (j : Invite) {i : Invite}
    → find_invite t code s ≡ some i
    → find_invite t code (s ++ j ∷ []) ≡ some i
unfolding find_invite
find-append t code [] j h = cc
find-append t code (x ∷ s) j h = elim (Bool-cases (t.normalize x.code == code)) [
  | inl e ↦ rw e (rw e at h)
  | inr e ↦ rw e (find-append t code s j (rw e at h))
]

-- A write to the invite of one code is seen by that code, and by no other.
find-set_used_other :
    (t : Texts) (code other : String) (at : Option ℕ) (by : Option String) (s : List Invite)
    {i : Invite}
    → (other == code) ≡ false
    → find_invite t code s ≡ some i
    → find_invite t code (set_used t other at by s) ≡ some i
unfolding find_invite set_used
find-set_used_other t code other at by [] d h = cc
find-set_used_other t code other at by (x ∷ s) d h =
    elim (Bool-cases (t.normalize x.code == other)) [
      | inl e ↦
          let f : (t.normalize x.code == code) ≡ false =
            rw ((eq_iff (t.normalize x.code) other).0 e, d) refl in
          rw (e, f) (rw f at h)
      | inr e ↦ elim (Bool-cases (t.normalize x.code == code)) [
        | inl f ↦ rw (e, f) (rw f at h)
        | inr f ↦ rw (e, f) (find-set_used_other t code other at by s d (rw f at h))
      ]
    ]

pub find-set_used_self :
    (t : Texts) (code : String) (at : Option ℕ) (by : Option String) (s : List Invite) {i : Invite}
    → find_invite t code s ≡ some i
    → find_invite t code (set_used t code at by s) ≡ some (record i { used_at = at; used_by = by })
unfolding find_invite set_used
find-set_used_self t code at by [] h = cc
find-set_used_self t code at by (x ∷ s) h = elim (Bool-cases (t.normalize x.code == code)) [
  | inl e ↦ rw (e, e) (ground (arith, some_inj (rw e at h)))
  | inr e ↦ rw (e, e) (find-set_used_self t code at by s (rw e at h))
]

is_truthy-is_some : (o : Option ℕ) → is_truthy o ≡ true → is_some o ≡ true
is_truthy-is_some none h = h
is_truthy-is_some (some n) h = refl

-- A write for another code keeps what is spent.
set_used-IsSpent :
    (t : Texts) (code other : String) (at : Option ℕ) (by : Option String) (s : List Invite)
    → (other == code) ≡ false
    → IsSpent t code s
    → IsSpent t code (set_used t other at by s)
set_used-IsSpent t code other at by s d (i, h, u) =
    (i, find-set_used_other t code other at by s d h, u)

add_invite-IsSpent :
    (t : Texts) (ttl_ms now : ℕ) (o : Order) (code : String) (s : List Invite)
    (r : Result Error String)
    → IsSpent t code s
    → IsSpent t code (add_invite ttl_ms now o r s).1
unfolding add_invite
add_invite-IsSpent t ttl_ms now o code s (err x) h = h
add_invite-IsSpent t ttl_ms now o code s (ok note) (i, h, u) =
    (i, find-append t code s (new_invite ttl_ms now o note) h, u)

create-IsSpent :
    (t : Texts) (ttl_ms now : ℕ) (o : Order) (code : String) (s : List Invite)
    → IsSpent t code s
    → IsSpent t code (create t ttl_ms now o s).1
unfolding create
create-IsSpent t ttl_ms now o code s h = elim (Bool-cases (leb max_invites (length s))) [
  | inl e ↦ rw e h
  | inr e ↦ rw e (add_invite-IsSpent t ttl_ms now o code s (valid_note t o.note) h)
]

-- A spent code is neither alive nor free.
IsSpent-is_alive :
    (t : Texts) (now : ℕ) (code : String) (s : List Invite)
    → IsSpent t code s
    → is_alive now (find_invite t code s) ≡ false
IsSpent-is_alive t now code s (i, h, u) = rw (h, u) refl

IsSpent-is_free :
    (t : Texts) (now : ℕ) (code : String) (s : List Invite)
    → IsSpent t code s
    → is_free now (find_invite t code s) ≡ false
IsSpent-is_free t now code s (i, h, u) = rw (h, is_truthy-is_some i.used_at u) refl

consume-IsSpent :
    (t : Texts) (now : ℕ) (raw : String) (used_by : Option String) (code : String) (s : List Invite)
    → IsSpent t code s
    → IsSpent t code (consume t now raw used_by s).1
unfolding consume
consume-IsSpent t now raw used_by code s h =
    elim (Bool-cases (is_alive now (find_invite t (t.normalize raw) s))) [
      | inr e ↦ rw e h
      | inl e ↦ elim (Bool-cases (t.normalize raw == code)) [
        | inl f ↦
            let g : is_alive now (find_invite t (t.normalize raw) s) ≡ false =
              rw ((eq_iff (t.normalize raw) code).0 f) (IsSpent-is_alive t now code s h) in
            cc
        | inr f ↦ rw e (set_used-IsSpent t code (t.normalize raw) (some now) used_by s f h)
      ]
    ]

settle-IsSpent :
    (t : Texts) (code other : String) (r : Registration) (s : List Invite)
    → (other == code) ≡ false
    → IsSpent t code s
    → IsSpent t code (settle_registration t other r s).1
unfolding settle_registration
settle-IsSpent t code other registers s d h = h
settle-IsSpent t code other (throws x) s d h = elim (Bool-cases (is_releasable x)) [
  | inl e ↦ rw e (set_used-IsSpent t code other none none s d h)
  | inr e ↦ rw e h
]

redeem-IsSpent :
    (t : Texts) (now : ℕ) (raw email : String) (r : Registration) (code : String) (s : List Invite)
    → IsSpent t code s
    → IsSpent t code (redeem t now raw email r s).1
unfolding redeem
redeem-IsSpent t now raw email r code s h =
    elim (Bool-cases (is_free now (find_invite t (t.normalize raw) s))) [
      | inr e ↦ rw e h
      | inl e ↦ elim (Bool-cases (t.normalize raw == code)) [
        | inl f ↦
            let g : is_free now (find_invite t (t.normalize raw) s) ≡ false =
              rw ((eq_iff (t.normalize raw) code).0 f) (IsSpent-is_free t now code s h) in
            cc
        | inr f ↦ rw e (
            settle-IsSpent t code (t.normalize raw) r
              (set_used t (t.normalize raw) (some now) (some email) s) f
              (set_used-IsSpent t code (t.normalize raw) (some now) (some email) s f h))
      ]
    ]

pub run_calls-IsSpent :
    (t : Texts) (ttl_ms : ℕ) (code : String) (cs : List (ℕ × Call)) (s : List Invite)
    → IsSpent t code s
    → IsSpent t code (run_calls t ttl_ms cs s)
unfolding run_calls step
run_calls-IsSpent t ttl_ms code [] s h = h
run_calls-IsSpent t ttl_ms code ((now, creates o) ∷ cs) s h =
    run_calls-IsSpent t ttl_ms code cs (create t ttl_ms now o s).1
      (create-IsSpent t ttl_ms now o code s h)
run_calls-IsSpent t ttl_ms code ((now, consumes raw by) ∷ cs) s h =
    run_calls-IsSpent t ttl_ms code cs (consume t now raw by s).1
      (consume-IsSpent t now raw by code s h)
run_calls-IsSpent t ttl_ms code ((now, redeems raw email r) ∷ cs) s h =
    run_calls-IsSpent t ttl_ms code cs (redeem t now raw email r s).1
      (redeem-IsSpent t now raw email r code s h)

-- Who presents the code once it is spent.
abbrev pub IsRefused : Texts → ℕ → String → List Invite → Type 0
IsRefused t now raw s =
    (validate t now raw s ≡ err invalid_invite)
    × ((used_by : Option String) → consume t now raw used_by s ≡ (err invalid_invite, s))
    × ((email : String) (r : Registration) → redeem t now raw email r s ≡ (not_valid, s))

pub spent_lem :
    (t : Texts) (now : ℕ) (raw : String) (s : List Invite)
    → IsSpent t (t.normalize raw) s
    → IsRefused t now raw s
unfolding validate consume redeem
spent_lem t now raw s h =
    let a = IsSpent-is_alive t now (t.normalize raw) s h in
    let f = IsSpent-is_free t now (t.normalize raw) s h in
    (rw a refl, λ used_by. rw a refl, λ email r. rw f refl)

find_alive : (now : ℕ) (o : Option Invite) → is_alive now o ≡ true → (i : Invite) × (o ≡ some i)
find_alive now none h = cc
find_alive now (some i) h = (i, refl)

pub find_free : (now : ℕ) (o : Option Invite) → is_free now o ≡ true → (i : Invite) × (o ≡ some i)
find_free now none h = cc
find_free now (some i) h = (i, refl)

pub consume_spends :
    (t : Texts) (now : ℕ) (raw : String) (used_by : Option String) (s : List Invite)
    → 0 < now
    → (consume t now raw used_by s).0 ≡ ok tt
    → IsSpent t (t.normalize raw) (consume t now raw used_by s).1
unfolding consume
consume_spends t now raw used_by s p h =
    elim (Bool-cases (is_alive now (find_invite t (t.normalize raw) s))) [
      | inl e ↦
          let f = find_alive now (find_invite t (t.normalize raw) s) e in
          rw e (_, find-set_used_self t (t.normalize raw) (some now) used_by s f.1, ground arith)
      | inr e ↦ absurd (cc (rw e at h))
    ]

pub redeem_spends :
    (t : Texts) (now : ℕ) (raw email : String) (s : List Invite)
    → 0 < now
    → (redeem t now raw email registers s).0 ≡ admitted
    → IsSpent t (t.normalize raw) (redeem t now raw email registers s).1
unfolding redeem settle_registration
redeem_spends t now raw email s p h =
    elim (Bool-cases (is_free now (find_invite t (t.normalize raw) s))) [
      | inl e ↦
          let f = find_free now (find_invite t (t.normalize raw) s) e in
          rw e
            (_, find-set_used_self t (t.normalize raw) (some now) (some email) s f.1, ground arith)
      | inr e ↦ absurd (cc (rw e at h))
    ]
