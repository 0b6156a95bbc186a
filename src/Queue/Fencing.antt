-- ===== src/Queue/Fencing.antt =====
-- The tokens of the leases of server/postgres/executionQueue.js: one that is gone from the rows is refused for good.
use qase.Common.{
  ℕ, String, Bool, true, false, not, Option, none, some, List, [], ◌∷◌, ◌==◌, ◌&&◌, ◌||◌, ◌≡◌, refl,
  arith, ap, if◌then◌else◌, map, filter, All, any, Bool-cases, Option-cases, inl, inr, leb, ltb,
  count, min, ◌+◌, ◌*◌, ◌^◌,
}
use qase.Queue.{
  queued, cancel_requested, Job, Lease, Limits, is_active, enqueue, refresh, refreshed, select_job,
  lease_to, claim, is_held, status_of, beat, heartbeat, finish, complete, give_up, fail, cancel_job,
  cancel_run, close, failed, cancelled, succeeded, reap_exhausted, is_queued, is_leased,
  is_cancelling, cancel_gone, requeue, expire_by, expire_at,
}
use qase.Queue.Leases.{
  Transaction, enqueues, claims, beats, completes, fails, cancels, reaps, commit,
}

abbrev pub has_token : String → Option Lease → Bool
has_token token none = false
has_token token (some l) = l.token == token

-- No row has the token.
abbrev pub IsGone : String → List Job → Type 0
IsGone token jobs = All (λ j. has_token token j.lease ≡ false) jobs

-- A transaction that does not hand the token out.
abbrev pub spares : String → Transaction → Bool
spares token (claims locked held owner new lease_ms) = not (new == token)
spares token _ = true

module _ (token : String) where
  abbrev Lacks : Job → Type 0
  Lacks j = has_token token j.lease ≡ false

  if-Lacks : (b : Bool) (j k : Job) → Lacks j → Lacks k → Lacks (if b then j else k)
  if-Lacks true j k f g = f
  if-Lacks false j k f g = g

  expire_by-Lacks :
      (t : ℕ) (o : Option Lease)
      → has_token token o ≡ false
      → has_token token (expire_by t o) ≡ false
  expire_by-Lacks t none h = h
  expire_by-Lacks t (some l) h = h

  expire_at-Lacks :
      (t : ℕ) (o : Option Lease)
      → has_token token o ≡ false
      → has_token token (expire_at t o) ≡ false
  expire_at-Lacks t none h = h
  expire_at-Lacks t (some l) h = h

  refresh-Lacks :
      (alive : String → Bool) (now : ℕ) (j : Job) → Lacks j → Lacks (refresh alive now j)
  unfolding refresh
  refresh-Lacks alive now j h =
      let a =
        if-Lacks (is_active j.status && not (alive j.run_id)) (close now cancelled j) j refl h in
      let k = cancel_gone alive now j in
      let b =
        if-Lacks _ (record k { status = queued; available_at = now; lease = none }) k refl a in
      let m = requeue now k in if-Lacks _ (close now cancelled m) m refl b

  beat-Lacks :
      (l : Limits) (alive : String → Bool) (now lease_ms : ℕ) (j : Job)
      → Lacks j
      → Lacks (beat l alive now lease_ms j)
  beat-Lacks l alive now lease_ms j h =
      let t = now + l.cancel_grace_ms in
      let k : Job = record j { lease = expire_at (now + lease_ms) j.lease } in
      if-Lacks (not (alive j.run_id))
        (record j { status = cancel_requested; lease = expire_by t j.lease })
        (if is_leased j.status then k else j) (expire_by-Lacks t j.lease h)
        (if-Lacks (is_leased j.status) k j (expire_at-Lacks (now + lease_ms) j.lease h) h)

  finish-Lacks : (alive : String → Bool) (now : ℕ) (j : Job) → Lacks (finish alive now j)
  finish-Lacks alive now j =
      if-Lacks (is_cancelling j.status || not (alive j.run_id)) (close now cancelled j)
        (close now succeeded j) refl refl

  give_up-Lacks :
      (alive : String → Bool) (now : ℕ) (retryable : Bool) (j : Job)
      → Lacks (give_up alive now retryable j)
  give_up-Lacks alive now retryable j =
      let k : Job = record j {
        status = queued;
        available_at = now + min 60 (2 ^ j.attempts) * 1000;
        finished_at = none;
        lease = none;
      } in
      let r = retryable && ltb j.attempts j.max_attempts in
      if-Lacks (is_cancelling j.status || not (alive j.run_id)) (close now cancelled j)
        (if r then k else close now failed j) refl (if-Lacks r k (close now failed j) refl refl)

  cancel_job-Lacks : (l : Limits) (now : ℕ) (j : Job) → Lacks j → Lacks (cancel_job l now j)
  cancel_job-Lacks l now j h =
      let t = now + l.cancel_grace_ms in
      if-Lacks (is_queued j.status) (record j { status = cancelled; finished_at = some now })
        (record j { status = cancel_requested; lease = expire_by t j.lease }) h
        (expire_by-Lacks t j.lease h)

  map-IsGone :
      (f : Job → Job) (jobs : List Job)
      → ((j : Job) → Lacks j → Lacks (f j))
      → IsGone token jobs
      → IsGone token (map f jobs)
  map-IsGone f [] h a = tt
  map-IsGone f (j ∷ js) h (a, rest) = (h j a, map-IsGone f js h rest)

  filter-IsGone :
      (p : Job → Bool) (jobs : List Job) → IsGone token jobs → IsGone token (filter p jobs)
  unfolding filter
  filter-IsGone p [] a = tt
  filter-IsGone p (j ∷ js) (a, rest) = elim (Bool-cases (p j)) [
    | inl e ↦ rw e (a, filter-IsGone p js rest)
    | inr e ↦ rw e (filter-IsGone p js rest)
  ]

  claim-IsGone :
      (l : Limits) (alive : String → Bool) (held : Job → Bool) (locked : String → Bool) (now : ℕ)
      (owner new : String) (lease_ms : ℕ) (jobs : List Job)
      → new == token ≡ false
      → IsGone token jobs
      → IsGone token (claim l alive held locked now owner new lease_ms jobs).1
  unfolding claim
  claim-IsGone l alive held locked now owner new lease_ms jobs n a =
      let rows = refreshed l alive held now jobs in
      let b = map-IsGone (refresh alive now) _ (refresh-Lacks alive now) (filter-IsGone _ jobs a) in
      elim (Option-cases (select_job locked now rows)) [
        | inl e ↦ rw e b
        | inr (j, e) ↦ rw e (
            map-IsGone _ rows
              (λ x h. if-Lacks (x.id == j.id) (lease_to owner new (now + lease_ms) x) x n h) b)
      ]

  enqueue-IsGone :
      (l : Limits) (alive : String → Bool) (now : ℕ) (id run_id : String) (jobs : List Job)
      → IsGone token jobs
      → IsGone token (commit l alive now (enqueues id run_id) jobs)
  unfolding commit enqueue
  enqueue-IsGone l alive now id run_id jobs a = elim (Bool-cases (not (alive run_id))) [
    | inl e ↦ rw e a
    | inr e ↦ elim (Bool-cases (leb l.max_active_jobs (count (λ j. is_active j.status) jobs))) [
      | inl f ↦ rw (e, f) a
      | inr f ↦
          elim (Bool-cases
            (any (λ j. (j.id == id) || (is_active j.status && (j.run_id == run_id))) jobs)) [
              | inl g ↦ rw (e, f, g) a
              | inr g ↦ rw (e, f, g) (refl, a)
            ]
    ]
  ]

  commit-IsGone :
      (l : Limits) (alive : String → Bool) (now : ℕ) (t : Transaction) (jobs : List Job)
      → spares token t ≡ true
      → IsGone token jobs
      → IsGone token (commit l alive now t jobs)
  unfolding commit heartbeat complete fail cancel_run reap_exhausted
  commit-IsGone l alive now (enqueues id run_id) jobs s a =
      enqueue-IsGone l alive now id run_id jobs a
  commit-IsGone l alive now (claims locked held owner new lease_ms) jobs s a =
      claim-IsGone l alive held locked now owner new lease_ms jobs (ground arith) a
  commit-IsGone l alive now (beats id t owner lease_ms) jobs s a =
      map-IsGone _ jobs
        (λ j h. if-Lacks _ (beat l alive now lease_ms j) j (beat-Lacks l alive now lease_ms j h) h)
        a
  commit-IsGone l alive now (completes id t owner) jobs s a =
      map-IsGone _ jobs (λ j h. if-Lacks _ (finish alive now j) j (finish-Lacks alive now j) h) a
  commit-IsGone l alive now (fails id t owner retryable) jobs s a =
      map-IsGone _ jobs
        (λ j h.
          if-Lacks _ (give_up alive now retryable j) j (give_up-Lacks alive now retryable j) h)
        a
  commit-IsGone l alive now (cancels run_id) jobs s a =
      map-IsGone _ jobs (λ j h. if-Lacks _ (cancel_job l now j) j (cancel_job-Lacks l now j h) h) a
  commit-IsGone l alive now reaps jobs s a =
      map-IsGone _ jobs (λ j h. if-Lacks _ (close now failed j) j refl h) a

  not_held :
      (now : ℕ) (id owner : String) (j : Job) → Lacks j → is_held now id token owner j ≡ false
  unfolding is_held
  not_held now id owner j h = ground (arith, h)

  update_none :
      (now : ℕ) (id owner : String) (f : Job → Job) (jobs : List Job)
      → IsGone token jobs
      → (status_of (is_held now id token owner) f jobs ≡ none)
        × (map (λ j. if is_held now id token owner j then f j else j) jobs ≡ jobs)
  unfolding status_of
  update_none now id owner f [] a = (refl, refl)
  update_none now id owner f (j ∷ js) (a, rest) =
      let (s, m) = update_none now id owner f js rest in
      let n = not_held now id owner j a in (rw n s, rw n (ap (λ z. j ∷ z) m))

pair_eq {ℓ κ} :
    {A : Type ℓ} {B : Type κ} {a c : A} {b d : B}
    → (a ≡ c) × (b ≡ d)
    → ◌≡◌ {A = A × B} (a, b) (c, d)
pair_eq (p, q) = cc

-- Transactions at their times, one after another.
unfoldable pub commits : Limits → (String → Bool) → List (ℕ × Transaction) → List Job → List Job
commits l alive [] jobs = jobs
commits l alive ((now, t) ∷ ts) jobs = commits l alive ts (commit l alive now t jobs)

commits-IsGone :
    (token : String) (l : Limits) (alive : String → Bool) (ts : List (ℕ × Transaction))
    (jobs : List Job)
    → All (λ (t : ℕ × Transaction). spares token t.1 ≡ true) ts
    → IsGone token jobs
    → IsGone token (commits l alive ts jobs)
unfolding commits
commits-IsGone token l alive [] jobs s a = a
commits-IsGone token l alive ((now, t) ∷ ts) jobs (s, rest) a =
    commits-IsGone token l alive ts _ rest (commit-IsGone token l alive now t jobs s a)

-- Once a token is gone from the rows, and as long as no claim hands it out again, a heartbeat, a completion and a
-- failure with it find no job and change nothing, after any transactions, whatever job and worker they name.
pub commits-refused :
    (token : String) (l : Limits) (alive : String → Bool) (ts : List (ℕ × Transaction))
    (jobs : List Job) (now : ℕ) (id owner : String) (lease_ms : ℕ) (retryable : Bool)
    → All (λ (t : ℕ × Transaction). spares token t.1 ≡ true) ts
    → IsGone token jobs
    → let rows = commits l alive ts jobs in
      (heartbeat l alive now id token owner lease_ms rows ≡ (none, rows))
      × (complete alive now id token owner rows ≡ (none, rows))
      × (fail alive now id token owner retryable rows ≡ (none, rows))
unfolding heartbeat complete fail
commits-refused token l alive ts jobs now id owner lease_ms retryable s a =
    let g = commits-IsGone token l alive ts jobs s a in
    let u =
      λ (f : Job → Job). pair_eq (update_none token now id owner f (commits l alive ts jobs) g) in
    (u (beat l alive now lease_ms), u (finish alive now), u (give_up alive now retryable))
