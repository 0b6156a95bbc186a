-- ===== src/Queue/Jobs.antt =====
-- What holds of every row of server/postgres/executionQueue.js.
use qase.Common.{
  ℕ, ◌+◌, ◌≤◌, ◌<◌, String, Bool, true, false, not, Option, none, some, List, [], ◌∷◌, ◌&&◌, ◌||◌,
  ◌≡◌, refl, arith, subst, sym, ◌∙◌, if◌then◌else◌, map, filter, All, is_some, ltb, min, ◌*◌, ◌^◌,
  Bool-cases, inl, inr, ◌⊎◌, some_inj,
}
use qase.Queue.{
  JobStatus, queued, leased, cancel_requested, succeeded, failed, cancelled, Job, Limits,
  is_retired, refresh, refreshed, select_job, lease_to, is_held, beat, finish, give_up, cancel_job,
  close, is_ready, earlier, cancel_gone, requeue, expire_by, expire_at, is_leased, is_cancelling,
  is_queued, Lease, is_ready, earlier, precedes,
}

-- A status, whether there is a lease and an end, and the attempts: a job has a lease exactly while a worker has it, an
-- end exactly when it is over, never more attempts than allowed, and one left while it is queued.
abbrev pub Fits : JobStatus → Bool → Bool → ℕ → ℕ → Type 0
Fits queued hrestlease hrestend n most = (hrestlease ≡ false) × (hrestend ≡ false) × (n < most)
Fits leased hrestlease hrestend n most = (hrestlease ≡ true) × (hrestend ≡ false) × (n ≤ most)
Fits cancel_requested hrestlease hrestend n most =
    (hrestlease ≡ true) × (hrestend ≡ false) × (n ≤ most)
Fits succeeded hrestlease hrestend n most = (hrestlease ≡ false) × (hrestend ≡ true) × (n ≤ most)
Fits failed hrestlease hrestend n most = (hrestlease ≡ false) × (hrestend ≡ true) × (n ≤ most)
Fits cancelled hrestlease hrestend n most = (hrestlease ≡ false) × (hrestend ≡ true) × (n ≤ most)

abbrev pub IsJob : Job → Type 0
IsJob j = Fits j.status (is_some j.lease) (is_some j.finished_at) j.attempts j.max_attempts

Fits-most : (s : JobStatus) (a b : Bool) (n m : ℕ) → Fits s a b n m → n ≤ m
Fits-most s a b n m f = ground arith

pub close-IsJob :
    (now : ℕ) (j : Job)
    → IsJob j
    → (IsJob (close now cancelled j))
      × (IsJob (close now failed j))
      × (IsJob (close now succeeded j))
close-IsJob now j f =
    let h = Fits-most j.status _ _ _ _ f in ((refl, refl, h), (refl, refl, h), (refl, refl, h))

pub if-IsJob :
    (b : Bool) (j k : Job)
    → (b ≡ true → IsJob j)
    → (b ≡ false → IsJob k)
    → IsJob (if b then j else k)
if-IsJob true j k f g = f refl
if-IsJob false j k f g = g refl

-- What each change of a row needs.
Fits-queued :
    (s : JobStatus) (a b x : Bool) (n m : ℕ)
    → Fits s a b n m
    → is_leased s && x && ltb n m ≡ true
    → Fits queued false b n m
Fits-queued s a b x n m f h = ground arith

Fits-cancelling :
    (s : JobStatus) (a b : Bool) (n m : ℕ)
    → Fits s a b n m
    → is_leased s || is_cancelling s ≡ true
    → Fits cancel_requested a b n m
Fits-cancelling s a b n m f h = ground arith

Fits-cancelled :
    (s : JobStatus) (a b : Bool) (n m : ℕ)
    → Fits s a b n m
    → is_queued s ≡ true
    → Fits cancelled a true n m
Fits-cancelled s a b n m f h = ground arith

is_some-expire_by : (t : ℕ) (o : Option Lease) → is_some (expire_by t o) ≡ is_some o
is_some-expire_by t none = refl
is_some-expire_by t (some l) = refl

is_some-expire_at : (t : ℕ) (o : Option Lease) → is_some (expire_at t o) ≡ is_some o
is_some-expire_at t none = refl
is_some-expire_at t (some l) = refl

-- A worker holds a job only while the job has a lease.
pub is_held-active :
    (now : ℕ) (id token owner : String) (j : Job)
    → is_held now id token owner j ≡ true
    → is_leased j.status || is_cancelling j.status ≡ true
unfolding is_held
is_held-active now id token owner j h = ground arith

refresh-IsJob : (alive : String → Bool) (now : ℕ) (j : Job) → IsJob j → IsJob (refresh alive now j)
unfolding refresh
refresh-IsJob alive now j f =
    let g = if-IsJob _ (close now cancelled j) j (λ e. (close-IsJob now j f).0) (λ e. f) in
    let k = cancel_gone alive now j in
    let h =
      if-IsJob _ (record k { status = queued; available_at = now; lease = none }) k
        (λ e. Fits-queued k.status _ _ _ _ _ g e) (λ e. g) in
    let m = requeue now k in
    if-IsJob _ (close now cancelled m) m (λ e. (close-IsJob now m h).0) (λ e. h)

pub beat-IsJob :
    (l : Limits) (alive : String → Bool) (now lease_ms : ℕ) (j : Job)
    → is_leased j.status || is_cancelling j.status ≡ true
    → IsJob j
    → IsJob (beat l alive now lease_ms j)
beat-IsJob l alive now lease_ms j a f =
    let t = now + l.cancel_grace_ms in
    let k : Job = record j { lease = expire_at (now + lease_ms) j.lease } in
    if-IsJob (not (alive j.run_id))
      (record j { status = cancel_requested; lease = expire_by t j.lease })
      (if is_leased j.status then k else j)
      (λ e.
        subst (λ x. Fits cancel_requested x (is_some j.finished_at) j.attempts j.max_attempts)
          (sym (is_some-expire_by t j.lease)) (Fits-cancelling j.status _ _ _ _ f a))
      (λ e.
        if-IsJob (is_leased j.status) k j
          (λ h.
            subst (λ x. Fits j.status x (is_some j.finished_at) j.attempts j.max_attempts)
              (sym (is_some-expire_at (now + lease_ms) j.lease)) f)
          (λ h. f))

pub finish-IsJob :
    (alive : String → Bool) (now : ℕ) (j : Job) → IsJob j → IsJob (finish alive now j)
finish-IsJob alive now j f =
    let c = close-IsJob now j f in
    if-IsJob _ (close now cancelled j) (close now succeeded j) (λ e. c.0) (λ e. c.2)

Fits-retried :
    (s : JobStatus) (a b r : Bool) (n m : ℕ)
    → Fits s a b n m
    → r && ltb n m ≡ true
    → Fits queued false false n m
Fits-retried s a b r n m f h = ground arith

pub give_up-IsJob :
    (alive : String → Bool) (now : ℕ) (retryable : Bool) (j : Job)
    → IsJob j
    → IsJob (give_up alive now retryable j)
give_up-IsJob alive now retryable j f =
    let c = close-IsJob now j f in
    if-IsJob _ (close now cancelled j) _ (λ e. c.0)
      (λ e.
        if-IsJob _
          (record j {
            status = queued;
            available_at = now + min 60 (2 ^ j.attempts) * 1000;
            finished_at = none;
            lease = none;
          })
          (close now failed j) (λ h. Fits-retried j.status _ _ retryable _ _ f h) (λ h. c.1))

Fits-stopping :
    (s : JobStatus) (a b : Bool) (n m : ℕ)
    → Fits s a b n m
    → is_queued s || is_leased s ≡ true
    → is_queued s ≡ false
    → Fits cancel_requested a b n m
Fits-stopping s a b n m f h e = ground arith

pub cancel_job-IsJob :
    (l : Limits) (now : ℕ) (j : Job)
    → is_queued j.status || is_leased j.status ≡ true
    → IsJob j
    → IsJob (cancel_job l now j)
cancel_job-IsJob l now j a f =
    let t = now + l.cancel_grace_ms in
    if-IsJob _ (record j { status = cancelled; finished_at = some now })
      (record j { status = cancel_requested; lease = expire_by t j.lease })
      (λ e. Fits-cancelled j.status _ _ _ _ f e)
      (λ e.
        subst (λ x. Fits cancel_requested x (is_some j.finished_at) j.attempts j.max_attempts)
          (sym (is_some-expire_by t j.lease)) (Fits-stopping j.status _ _ _ _ f a e))

pub update_where-IsJob :
    (p : Job → Bool) (f : Job → Job) (jobs : List Job)
    → ((j : Job) → p j ≡ true → IsJob j → IsJob (f j))
    → All IsJob jobs
    → All IsJob (map (λ j. if p j then f j else j) jobs)
update_where-IsJob p f [] h a = tt
update_where-IsJob p f (j ∷ js) h (a, rest) =
    (if-IsJob (p j) (f j) j (λ e. h j e a) (λ e. a), update_where-IsJob p f js h rest)

pub refreshed-IsJob :
    (l : Limits) (alive : String → Bool) (held : Job → Bool) (now : ℕ) (jobs : List Job)
    → All IsJob jobs
    → All IsJob (refreshed l alive held now jobs)
unfolding filter
refreshed-IsJob l alive held now [] a = tt
refreshed-IsJob l alive held now (j ∷ js) (a, rest) = elim (Bool-cases (is_retired l held now j)) [
  | inl e ↦ rw e (refreshed-IsJob l alive held now js rest)
  | inr e ↦ rw e (refresh-IsJob alive now j a, refreshed-IsJob l alive held now js rest)
]

pub earlier-cases : (j : Job) (o : Option Job) → (earlier j o ≡ some j) ⊎ (earlier j o ≡ o)
earlier-cases j none = inl refl
earlier-cases j (some k) = elim (Bool-cases (precedes j k)) [
  | inl e ↦ inl (rw e refl)
  | inr e ↦ inr (rw e refl)
]

-- What is selected is ready.
pub select_job-ready :
    (locked : String → Bool) (now : ℕ) (jobs : List Job) (k : Job)
    → select_job locked now jobs ≡ some k
    → is_ready locked now k ≡ true
unfolding select_job
select_job-ready locked now [] k h = absurd cc
select_job-ready locked now (j ∷ js) k h = elim (Bool-cases (is_ready locked now j)) [
  | inl e ↦ elim (earlier-cases j (select_job locked now js)) [
    | inl f ↦ subst (λ z. is_ready locked now z ≡ true) (some_inj (sym f ∙ rw e at h)) e
    | inr f ↦ select_job-ready locked now js k (sym f ∙ rw e at h)
  ]
  | inr e ↦ select_job-ready locked now js k (rw e at h)
]

leased-Fits :
    (s : JobStatus) (a b : Bool) (n m : ℕ)
    → Fits s a b n m
    → is_queued s ≡ true
    → Fits leased true b (n + 1) m
leased-Fits s a b n m f h = ground arith

pub lease_to-IsJob :
    (owner token : String) (t : ℕ) (j : Job)
    → is_queued j.status ≡ true
    → IsJob j
    → IsJob (lease_to owner token t j)
lease_to-IsJob owner token t j q f = leased-Fits j.status _ _ _ _ f q
