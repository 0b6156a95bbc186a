-- ===== src/Queue/Leases.antt =====
-- Transactions of server/postgres/executionQueue.js one after another, and whose lease counts.
use qase.Common.{
  ℕ, ◌+◌, ◌≤◌, String, Bool, true, false, not, none, some, List, [], ◌∷◌, ◌==◌, ◌&&◌, ◌||◌, ◌≡◌,
  refl, arith, subst, sym, ◌∙◌, if◌then◌else◌, map, filter, All, any, Bool-cases, Option-cases, inl,
  inr, ◌⊎◌, some_inj, eq_iff, leb, ltb, count,
}
use qase.Common.Result.{Result, ok, err}
use qase.Queue.{
  queued, Job, Limits, is_active, enqueue, refresh, refreshed, select_job, at_id, lease_to, claim,
  beat, heartbeat, finish, complete, give_up, fail, is_cancellable, cancel_job, cancel_run, close,
  failed, cancelled, reap_exhausted, is_ready, is_queued, is_leased, is_cancelling, cancel_gone,
  requeue, Fault,
}
use qase.Queue.Jobs.{
  IsJob, if-IsJob, close-IsJob, is_held-active, beat-IsJob, finish-IsJob, give_up-IsJob,
  cancel_job-IsJob, update_where-IsJob, refreshed-IsJob, select_job-ready, lease_to-IsJob,
  earlier-cases,
}

-- No two rows have the same id, which is the primary key.
abbrev pub IsKeyed : List Job → Type 0
IsKeyed [] = Unit
IsKeyed (j ∷ js) = All (λ k. k.id == j.id ≡ false) js × IsKeyed js

abbrev pub IsQueue : List Job → Type 0
IsQueue jobs = All IsJob jobs × IsKeyed jobs

abbrev Member : Job → List Job → Type 0
Member k [] = ⊥
Member k (j ∷ js) = (k ≡ j) ⊎ Member k js

select_job-Member :
    (locked : String → Bool) (now : ℕ) (jobs : List Job) (k : Job)
    → select_job locked now jobs ≡ some k
    → Member k jobs
unfolding select_job
select_job-Member locked now [] k h = absurd cc
select_job-Member locked now (j ∷ js) k h = elim (Bool-cases (is_ready locked now j)) [
  | inl e ↦ elim (earlier-cases j (select_job locked now js)) [
    | inl f ↦ inl (sym (some_inj (sym f ∙ rw e at h)))
    | inr f ↦ inr (select_job-Member locked now js k (sym f ∙ rw e at h))
  ]
  | inr e ↦ inr (select_job-Member locked now js k (rw e at h))
]

Member-All {ℓ} : (P : Job → Type ℓ) (k : Job) (js : List Job) → Member k js → All P js → P k
Member-All P k (j ∷ js) (inl e) (a, rest) = subst P (sym e) a
Member-All P k (j ∷ js) (inr m) (a, rest) = Member-All P k js m rest
Member-All P k [] m a = absurd m

others_kept :
    (f : Job → Job) (k j : Job) (js : List Job)
    → k ≡ j
    → All (λ x. x.id == j.id ≡ false) js
    → All IsJob js
    → All IsJob (map (at_id k.id f) js)
others_kept f k j [] e n a = tt
others_kept f k j (x ∷ js) e (n, ns) (a, rest) = (
  if-IsJob (x.id == k.id) (f x) x (λ g. absurd (cc (subst (λ z. x.id == z.id ≡ true) e g)))
      (λ g. a),
  others_kept f k j js e ns rest,
)

-- The update of the row of a queued job is an update of a queued row.
at_id-IsJob :
    (f : Job → Job) (k : Job) (jobs : List Job)
    → is_queued k.status ≡ true
    → ((j : Job) → is_queued j.status ≡ true → IsJob j → IsJob (f j))
    → Member k jobs
    → IsQueue jobs
    → All IsJob (map (at_id k.id f) jobs)
at_id-IsJob f k [] q h m i = tt
at_id-IsJob f k (j ∷ js) q h (inl e) ((a, rest), (n, ns)) = (
  if-IsJob (j.id == k.id) (f j) j (λ g. h j (subst (λ z. is_queued z.status ≡ true) e q) a)
      (λ g. a),
  others_kept f k j js e n rest,
)
at_id-IsJob f k (j ∷ js) q h (inr m) ((a, rest), (n, ns)) = (
  if-IsJob (j.id == k.id) (f j) j
      (λ g. absurd (
        ground (
          arith,
          g,
          eq_iff j.id k.id,
          eq_iff k.id j.id,
          Member-All (λ x. x.id == j.id ≡ false) k js m n,
        )))
      (λ g. a),
  at_id-IsJob f k js q h m (rest, ns),
)

ids_kept :
    (f : Job → Job) (j : Job) (js : List Job)
    → ((j : Job) → (f j).id ≡ j.id)
    → All (λ k. k.id == j.id ≡ false) js
    → All (λ k. k.id == (f j).id ≡ false) (map f js)
ids_kept f j [] i n = tt
ids_kept f j (k ∷ js) i (n, ns) = (rw (i k, i j) n, ids_kept f j js i ns)

IsKeyed-map :
    (f : Job → Job) (js : List Job)
    → ((j : Job) → (f j).id ≡ j.id)
    → IsKeyed js
    → IsKeyed (map f js)
IsKeyed-map f [] i k = tt
IsKeyed-map f (j ∷ js) i (n, ns) = (ids_kept f j js i n, IsKeyed-map f js i ns)

All-filter {ℓ} :
    (P : Job → Type ℓ) (p : Job → Bool) (js : List Job) → All P js → All P (filter p js)
unfolding filter
All-filter P p [] a = tt
All-filter P p (j ∷ js) (a, rest) = elim (Bool-cases (p j)) [
  | inl e ↦ rw e (a, All-filter P p js rest)
  | inr e ↦ rw e (All-filter P p js rest)
]

IsKeyed-filter : (p : Job → Bool) (js : List Job) → IsKeyed js → IsKeyed (filter p js)
unfolding filter
IsKeyed-filter p [] k = tt
IsKeyed-filter p (j ∷ js) (n, ns) = elim (Bool-cases (p j)) [
  | inl e ↦ rw e (All-filter (λ k. k.id == j.id ≡ false) p js n, IsKeyed-filter p js ns)
  | inr e ↦ rw e (IsKeyed-filter p js ns)
]

if-id : (b : Bool) (j k : Job) (i : String) → j.id ≡ i → k.id ≡ i → (if b then j else k).id ≡ i
if-id true j k i e f = e
if-id false j k i e f = f

refresh-id : (alive : String → Bool) (now : ℕ) (j : Job) → (refresh alive now j).id ≡ j.id
unfolding refresh
refresh-id alive now j =
    let a = if-id (is_active j.status && not (alive j.run_id)) _ j j.id refl refl in
    let k = cancel_gone alive now j in
    let b = if-id _ (record k { status = queued; available_at = now; lease = none }) k j.id a a in
    let m = requeue now k in if-id _ (close now cancelled m) m j.id b b

update_where-IsQueue :
    (p : Job → Bool) (f : Job → Job) (jobs : List Job)
    → ((j : Job) → p j ≡ true → IsJob j → IsJob (f j))
    → ((j : Job) → (f j).id ≡ j.id)
    → IsQueue jobs
    → IsQueue (map (λ j. if p j then f j else j) jobs)
update_where-IsQueue p f jobs h i (a, k) = (
  update_where-IsJob p f jobs h a,
  IsKeyed-map _ jobs (λ j. if-id (p j) (f j) j j.id (i j) refl) k,
)

-- A transaction, with its time and its arguments.
pub data Transaction : Type 0 where
  enqueues : (id run_id : String) → Transaction
  claims :
      (locked : String → Bool) (held : Job → Bool) (owner token : String) (lease_ms : ℕ)
      → Transaction
  beats : (id token owner : String) (lease_ms : ℕ) → Transaction
  completes : (id token owner : String) → Transaction
  fails : (id token owner : String) (retryable : Bool) → Transaction
  cancels : (run_id : String) → Transaction
  reaps : Transaction

abbrev kept : List Job → Result Fault (List Job) → List Job
kept jobs (ok js) = js
kept jobs (err e) = jobs

-- The rows after it; one that fails is rolled back.
unfoldable pub commit : Limits → (String → Bool) → ℕ → Transaction → List Job → List Job
commit l alive now (enqueues id run_id) jobs = kept jobs (enqueue l alive now id run_id jobs)
commit l alive now (claims locked held owner token lease_ms) jobs =
    (claim l alive held locked now owner token lease_ms jobs).1
commit l alive now (beats id token owner lease_ms) jobs =
    (heartbeat l alive now id token owner lease_ms jobs).1
commit l alive now (completes id token owner) jobs = (complete alive now id token owner jobs).1
commit l alive now (fails id token owner retryable) jobs =
    (fail alive now id token owner retryable jobs).1
commit l alive now (cancels run_id) jobs = (cancel_run l now run_id jobs).1
commit l alive now reaps jobs = (reap_exhausted now jobs).1

any-id :
    (id run_id : String) (jobs : List Job)
    → any (λ j. (j.id == id) || (is_active j.status && (j.run_id == run_id))) jobs ≡ false
    → All (λ j. j.id == id ≡ false) jobs
unfolding any
any-id id run_id [] h = tt
any-id id run_id (j ∷ js) h =
    elim (Bool-cases ((j.id == id) || (is_active j.status && (j.run_id == run_id)))) [
      | inl e ↦ absurd (cc (rw e at h))
      | inr e ↦ (ground arith, any-id id run_id js (rw e at h))
    ]

enqueue-IsQueue :
    (l : Limits) (alive : String → Bool) (now : ℕ) (id run_id : String) (jobs : List Job)
    → 1 ≤ l.max_attempts
    → IsQueue jobs
    → IsQueue (kept jobs (enqueue l alive now id run_id jobs))
unfolding enqueue
enqueue-IsQueue l alive now id run_id jobs m (a, k) = elim (Bool-cases (not (alive run_id))) [
  | inl e ↦ rw e (a, k)
  | inr e ↦ elim (Bool-cases (leb l.max_active_jobs (count (λ j. is_active j.status) jobs))) [
    | inl f ↦ rw (e, f) (a, k)
    | inr f ↦
        elim (Bool-cases
          (any (λ j. (j.id == id) || (is_active j.status && (j.run_id == run_id))) jobs)) [
            | inl g ↦ rw (e, f, g) (a, k)
            | inr g ↦ rw (e, f, g) (((refl, refl, omega arith), a), (any-id id run_id jobs g, k))
          ]
  ]
]

ready_queued :
    (locked : String → Bool) (now : ℕ) (j : Job)
    → is_ready locked now j ≡ true
    → is_queued j.status ≡ true
ready_queued locked now j h = ground arith

claim-IsQueue :
    (l : Limits) (alive : String → Bool) (held : Job → Bool) (locked : String → Bool) (now : ℕ)
    (owner token : String) (lease_ms : ℕ) (jobs : List Job)
    → IsQueue jobs
    → IsQueue (claim l alive held locked now owner token lease_ms jobs).1
unfolding claim
claim-IsQueue l alive held locked now owner token lease_ms jobs (a, k) =
    let rows = refreshed l alive held now jobs in
    let b = refreshed-IsJob l alive held now jobs a in
    let m = IsKeyed-map (refresh alive now) _ (refresh-id alive now) (IsKeyed-filter _ jobs k) in
    elim (Option-cases (select_job locked now rows)) [
      | inl e ↦ rw e (b, m)
      | inr (j, e) ↦ rw e (
        at_id-IsJob (lease_to owner token (now + lease_ms)) j rows
            (ready_queued locked now j (select_job-ready locked now rows j e))
            (λ x q f. lease_to-IsJob owner token (now + lease_ms) x q f)
            (select_job-Member locked now rows j e) (b, m),
        IsKeyed-map _ rows (λ x. if-id (x.id == j.id) _ x x.id refl refl) m,
      )
    ]

give_up-id :
    (alive : String → Bool) (now : ℕ) (retryable : Bool) (j : Job)
    → (give_up alive now retryable j).id ≡ j.id
give_up-id alive now retryable j =
    elim (Bool-cases (is_cancelling j.status || not (alive j.run_id))) [
      | inl e ↦ rw e refl
      | inr e ↦ elim (Bool-cases (retryable && ltb j.attempts j.max_attempts)) [
        | inl f ↦ rw (e, f) refl
        | inr f ↦ rw (e, f) refl
      ]
    ]

cancellable_status :
    (run_id : String) (j : Job)
    → is_cancellable run_id j ≡ true
    → is_queued j.status || is_leased j.status ≡ true
cancellable_status run_id j h = ground arith

-- Each transaction keeps the rows well formed: a job has a lease exactly while a worker has it, an end exactly when it
-- is over, at most as many attempts as it may have, and one left while it is queued; and no two have the same id.
pub commit-IsQueue :
    (l : Limits) (alive : String → Bool) (now : ℕ) (t : Transaction) (jobs : List Job)
    → 1 ≤ l.max_attempts
    → IsQueue jobs
    → IsQueue (commit l alive now t jobs)
unfolding commit heartbeat complete fail cancel_run reap_exhausted
commit-IsQueue l alive now (enqueues id run_id) jobs m q =
    enqueue-IsQueue l alive now id run_id jobs m q
commit-IsQueue l alive now (claims locked held owner token lease_ms) jobs m q =
    claim-IsQueue l alive held locked now owner token lease_ms jobs q
commit-IsQueue l alive now (beats id token owner lease_ms) jobs m q =
    update_where-IsQueue _ (beat l alive now lease_ms) jobs
      (λ j h f. beat-IsJob l alive now lease_ms j (is_held-active now id token owner j h) f)
      (λ j. if-id _ _ _ j.id refl (if-id (is_leased j.status) _ j j.id refl refl)) q
commit-IsQueue l alive now (completes id token owner) jobs m q =
    update_where-IsQueue _ (finish alive now) jobs (λ j h f. finish-IsJob alive now j f)
      (λ j. if-id _ _ _ j.id refl refl) q
commit-IsQueue l alive now (fails id token owner retryable) jobs m q =
    update_where-IsQueue _ (give_up alive now retryable) jobs
      (λ j h f. give_up-IsJob alive now retryable j f) (give_up-id alive now retryable) q
commit-IsQueue l alive now (cancels run_id) jobs m q =
    update_where-IsQueue _ (cancel_job l now) jobs
      (λ j h f. cancel_job-IsJob l now j (cancellable_status run_id j h) f)
      (λ j. if-id _ _ _ j.id refl refl) q
commit-IsQueue l alive now reaps jobs m q =
    update_where-IsQueue _ (close now failed) jobs (λ j h f. (close-IsJob now j f).1) (λ j. refl) q
