-- ===== src/Browser/Consent.antt =====
-- The consent of the user in server/browserPolicy.js.
use qase.Common.{
  ℕ, suc, ◌+◌, ◌*◌, ◌≤◌, Bool, true, false, Option, none, some, List, [], ◌∷◌, ◌==◌, ◌&&◌, ◌≡◌,
  refl, arith, ltb, leb, leb→le, inl, inr, some_inj, ap, subst, Bool-cases, eq_iff,
}
use qase.Browser.{
  Answer, affirmative, negative, unclear, Pending, Grant, State, Action, Verdict, granted, approved,
  declined, asked, usable, latest_answer, answer_to, settle_answer, use_grant, authorize_action,
}

-- The actions of a run, one after the other.
pub run : ℕ → List Action → State → List Verdict × State
run ttl [] s = ([], s)
run ttl (a ∷ acts) s =
    let o = authorize_action ttl a s in let rest = run ttl acts o.1 in (o.0 ∷ rest.0, rest.1)

abbrev uses_of : Option Grant → ℕ
uses_of none = 0
uses_of (some g) = g.remaining_uses

-- How many actions were allowed, and how many of them by an answer of the user.
abbrev pub allowed_of : List Verdict → ℕ
allowed_of [] = 0
allowed_of (granted ∷ vs) = suc (allowed_of vs)
allowed_of (approved ∷ vs) = suc (allowed_of vs)
allowed_of (declined ∷ vs) = allowed_of vs
allowed_of (asked ∷ vs) = allowed_of vs

abbrev pub approved_of : List Verdict → ℕ
approved_of [] = 0
approved_of (approved ∷ vs) = suc (approved_of vs)
approved_of (granted ∷ vs) = approved_of vs
approved_of (declined ∷ vs) = approved_of vs
approved_of (asked ∷ vs) = approved_of vs

-- What one action takes of the approvals and of the uses that are left.
abbrev IsPaid : State → Verdict × State → Type 0
IsPaid s o =
    allowed_of (o.0 ∷ []) + uses_of o.1.grant ≤ 2 * approved_of (o.0 ∷ []) + uses_of s.grant

settle_answer-IsPaid :
    (ttl : ℕ) (a : Action) (o : Option Answer) (s : State) → IsPaid s (settle_answer ttl a o s)
unfolding settle_answer
settle_answer-IsPaid ttl a (some affirmative) s = omega arith
settle_answer-IsPaid ttl a (some negative) s = omega arith
settle_answer-IsPaid ttl a (some unclear) s = omega arith
settle_answer-IsPaid ttl a none s = omega arith

usable-some :
    (a : Action) (o : Option Grant) (g : Grant)
    → usable a o ≡ some g
    → (uses_of o ≡ g.remaining_uses) × (1 ≤ g.remaining_uses)
usable-some a none g h = absurd cc
usable-some a (some x) g h =
    elim (Bool-cases (
      leb a.timestamp x.expires_at
      && (x.category == a.category)
      && (x.location == a.location)
      && ltb 0 x.remaining_uses)) [
        | inl e ↦
            let i : x ≡ g = some_inj (rw e at h) in
            let n : 1 ≤ x.remaining_uses = ground arith in
            (ap (λ z. z.remaining_uses) i, subst (λ z. 1 ≤ z.remaining_uses) i n)
        | inr e ↦ absurd (cc (rw e at h))
      ]

use_grant-IsPaid :
    (ttl : ℕ) (a : Action) (o : Option Grant) (s : State)
    → usable a s.grant ≡ o
    → IsPaid s (use_grant ttl a o s)
unfolding use_grant
use_grant-IsPaid ttl a none s h = settle_answer-IsPaid ttl a (answer_to a s.pending) s
use_grant-IsPaid ttl a (some g) s h = let u = usable-some a s.grant g h in omega (arith, u.0, u.1)

allowed_of-cons :
    (v : Verdict) (vs : List Verdict) → allowed_of (v ∷ vs) ≡ allowed_of (v ∷ []) + allowed_of vs
allowed_of-cons granted vs = omega arith
allowed_of-cons approved vs = omega arith
allowed_of-cons declined vs = omega arith
allowed_of-cons asked vs = omega arith

approved_of-cons :
    (v : Verdict) (vs : List Verdict) → approved_of (v ∷ vs) ≡ approved_of (v ∷ []) + approved_of vs
approved_of-cons granted vs = omega arith
approved_of-cons approved vs = omega arith
approved_of-cons declined vs = omega arith
approved_of-cons asked vs = omega arith

run-paid :
    (ttl : ℕ) (acts : List Action) (s : State)
    → allowed_of (run ttl acts s).0 + uses_of (run ttl acts s).1.grant
      ≤ 2 * approved_of (run ttl acts s).0 + uses_of s.grant
unfolding run authorize_action
run-paid ttl [] s = omega arith
run-paid ttl (a ∷ acts) s =
    let o = authorize_action ttl a s in
    let h : IsPaid s o = use_grant-IsPaid ttl a (usable a s.grant) s refl in
    let r = run-paid ttl acts o.1 in
    omega (
      arith,
      h,
      r,
      allowed_of-cons o.0 (run ttl acts o.1).0,
      approved_of-cons o.0 (run ttl acts o.1).0,
    )

-- Over any sequence of actions that starts without a grant, at most twice as many destructive actions are
-- allowed as the user has approved: without an approval, none.
pub run_budget :
    (ttl : ℕ) (acts : List Action) (s : State)
    → s.grant ≡ none
    → allowed_of (run ttl acts s).0 ≤ 2 * approved_of (run ttl acts s).0
run_budget ttl acts s h =
    let u : uses_of s.grant ≡ 0 = ap uses_of h in omega (arith, u, run-paid ttl acts s)

-- What an approval rests on.
abbrev pub IsConsented : Action → State → Type 0
IsConsented a s =
    (p : Pending) × (s.pending ≡ some p)
    × (p.category ≡ a.category)
    × (p.location ≡ a.location)
    × (a.timestamp ≤ p.expires_at)
    × (latest_answer p.created_at a.messages ≡ some affirmative)

settle_answer-approved :
    (ttl : ℕ) (a : Action) (o : Option Answer) (s : State)
    → (settle_answer ttl a o s).0 ≡ approved
    → o ≡ some affirmative
unfolding settle_answer
settle_answer-approved ttl a (some affirmative) s h = refl
settle_answer-approved ttl a (some negative) s h = absurd cc
settle_answer-approved ttl a (some unclear) s h = absurd cc
settle_answer-approved ttl a none s h = absurd cc

and-true : (x y : Bool) → (x && y) ≡ true → (x ≡ true) × (y ≡ true)
and-true true y h = (refl, h)
and-true false y h = absurd cc

answer_to-some :
    (a : Action) (o : Option Pending)
    → answer_to a o ≡ some affirmative
    → (p : Pending) × (o ≡ some p)
      × (p.category ≡ a.category)
      × (p.location ≡ a.location)
      × (a.timestamp ≤ p.expires_at)
      × (latest_answer p.created_at a.messages ≡ some affirmative)
answer_to-some a none h = absurd cc
answer_to-some a (some p) h =
    elim (Bool-cases
      (leb a.timestamp p.expires_at && (p.category == a.category) && (p.location == a.location))) [
        | inl e ↦
            let x =
              and-true (leb a.timestamp p.expires_at && (p.category == a.category))
                (p.location == a.location) e in
            let y = and-true (leb a.timestamp p.expires_at) (p.category == a.category) x.0 in
            (
              p,
              refl,
              (eq_iff p.category a.category).0 y.1,
              (eq_iff p.location a.location).0 x.1,
              leb→le a.timestamp p.expires_at y.0,
              rw e at h,
            )
        | inr e ↦ absurd (cc (rw e at h))
      ]

use_grant-approved :
    (ttl : ℕ) (a : Action) (o : Option Grant) (s : State)
    → (use_grant ttl a o s).0 ≡ approved
    → answer_to a s.pending ≡ some affirmative
unfolding use_grant
use_grant-approved ttl a (some g) s h = absurd cc
use_grant-approved ttl a none s h = settle_answer-approved ttl a (answer_to a s.pending) s h

-- An action is approved only while a confirmation for the same category of risk and the same location is
-- pending and has not expired, and the latest message of the user since it was asked is an affirmative.
pub authorize_action-IsConsented :
    (ttl : ℕ) (a : Action) (s : State) → (authorize_action ttl a s).0 ≡ approved → IsConsented a s
unfolding authorize_action
authorize_action-IsConsented ttl a s h =
    answer_to-some a s.pending (use_grant-approved ttl a (usable a s.grant) s h)
