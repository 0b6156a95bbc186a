-- ===== src/Resume/Budget.antt =====
-- The budget of server/runResume.js: no run is resumed more than three times.
use qase.Common.{
  ℕ, ◌+◌, ◌*◌, ◌≤◌, String, Bool, true, false, not, Option, none, some, List, [], ◌∷◌, ◌==◌, ◌||◌,
  ◌≡◌, refl, arith, count, Dict, get, set, get-set, inl, inr, Bool-cases, Option-cases, eq_iff,
  subst, sym,
}
use qase.Resume.{
  max_attempts, Session, is_resumable, Snapshot, Host, scan, sort_candidates, note_cap, note_in,
  try_found, resume, Outcome, try_session, try_candidates, resume_all, resumes_of, logged, Life,
  begins, boots, goes_on,
}

abbrev one_if : Bool → ℕ
one_if true = 1
one_if false = 0

abbrev is_it : Option String → String → Bool
is_it none id = false
is_it (some x) id = x == id

-- What a boot does to the counter of each session: one more for the run that it resumes, which then is within
-- the budget, and nothing for the others.
abbrev IsBooted : Dict Session → Outcome → Type 0
IsBooted m o =
    (id : String)
    → (resumes_of (get id o.1) ≡ resumes_of (get id m) + one_if (is_it o.0 id))
      × (one_if (is_it o.0 id) * resumes_of (get id o.1) ≤ max_attempts)

note_cap-count : (h : Host) (s : Session) → (note_cap h s).auto_resume_count ≡ s.auto_resume_count
unfolding note_cap
note_cap-count h s = ground arith

-- A session that is replaced by one with the same counter.
set-resumes :
    (k id : String) (s u : Session) (m : Dict Session)
    → get k m ≡ some s
    → u.auto_resume_count ≡ s.auto_resume_count
    → resumes_of (get id (set k u m)) ≡ resumes_of (get id m)
set-resumes k id s u m g e = elim (Bool-cases (k == id)) [
  | inr f ↦ rw (get-set k id u m, f) refl
  | inl f ↦
      let x : get id m ≡ some s = subst (λ y. get y m ≡ some s) ((eq_iff k id).0 f) g in
      rw (get-set k id u m, f, x) e
]

is_resumable-below : (s : Session) → is_resumable s ≡ true → s.auto_resume_count + 1 ≤ max_attempts
unfolding is_resumable
is_resumable-below s h = ground arith

try_session-IsBooted :
    (h : Host) (k : String) (s : Session) (m : Dict Session) (next : Outcome)
    → get k m ≡ some s
    → IsBooted m next
    → IsBooted m (try_session h k s m next)
unfolding try_session resume
try_session-IsBooted h k s m next g n id =
    elim (Bool-cases (not (is_resumable s) || not (h.has_runtime k))) [
      | inl e ↦ rw e (n id)
      | inr e ↦
          let r : is_resumable s ≡ true = ground arith in
          let b = is_resumable-below s r in
          elim (Bool-cases (k == id)) [
            | inr f ↦ rw (e, get-set k id (resume h s) m, f) (omega arith, omega arith)
            | inl f ↦
                let x : get id m ≡ some s = subst (λ y. get y m ≡ some s) ((eq_iff k id).0 f) g in
                rw (e, get-set k id (resume h s) m, f, x) (refl, omega (arith, b))
          ]
    ]

try_candidates-IsBooted :
    (h : Host) (cs : List Snapshot) (m : Dict Session) → IsBooted m (try_candidates h cs m)
unfolding try_candidates note_in try_found
try_candidates-IsBooted h [] m id = (omega arith, omega arith)
try_candidates-IsBooted h (c ∷ cs) m id = elim (Option-cases (get c.session_id m)) [
  | inl e ↦ rw e (try_candidates-IsBooted h cs m id)
  | inr (s, e) ↦
      let noted = set c.session_id (note_cap h s) m in
      let g : get c.session_id noted ≡ some (note_cap h s) =
        rw
          (
            get-set c.session_id c.session_id (note_cap h s) m,
            (eq_iff c.session_id c.session_id).1 refl,
          )
          refl in
      let n =
        try_session-IsBooted h c.session_id (note_cap h s) noted (try_candidates h cs noted) g
          (try_candidates-IsBooted h cs noted) id in
      let k = set-resumes c.session_id id s (note_cap h s) m e (note_cap-count h s) in
      rw e (omega (arith, n.0, k), n.1)
]

resume_all-IsBooted : (h : Host) (m : Dict Session) → IsBooted m (resume_all h m)
unfolding resume_all
resume_all-IsBooted h m = try_candidates-IsBooted h (sort_candidates (scan h)) m

count-logged :
    (o : Option String) (id : String) (log : List String)
    → count (λ x. x == id) (logged o log) ≡ count (λ x. x == id) log + one_if (is_it o id)
unfolding count
count-logged none id log = omega arith
count-logged (some x) id log = ground arith

-- Over any number of boots, with any answers of the host and any other work in between that leaves the
-- counters alone: each run is resumed as often as its counter says, and at most three times.
pub Life-budget :
    (log : List String) (m : Dict Session)
    → Life log m
    → (id : String)
    → (count (λ x. x == id) log ≡ resumes_of (get id m)) × (count (λ x. x == id) log ≤ max_attempts)
unfolding count
Life-budget _ m (begins z) id = (sym (z id), omega arith)
Life-budget _ _ (boots {log = log} {m = m} h l) id =
    let i = Life-budget log m l id in
    let b = resume_all-IsBooted h m id in
    let c = count-logged (resume_all h m).0 id log in
    elim (Bool-cases (is_it (resume_all h m).0 id)) [
      | inl e ↦ (
        omega (arith, i.0, rw e at b.0, rw e at c),
        omega (arith, i.0, rw e at b.0, rw e at b.1, rw e at c),
      )
      | inr e ↦ (omega (arith, i.0, rw e at b.0, rw e at c), omega (arith, i.1, rw e at c))
    ]
Life-budget log n (goes_on {m = m} l e) id =
    let i = Life-budget log m l id in (omega (arith, i.0, e id), i.1)
