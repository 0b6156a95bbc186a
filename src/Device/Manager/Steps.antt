-- ===== src/Device/Manager/Steps.antt =====
-- A device is BUSY exactly while a session holds it, whatever is asked of the manager.
use qase.Common.{
  ℕ, String, Bool, Option, some, List, [], ◌∷◌, ◌≡◌, refl, ◌&&◌, ◌==◌, get_or, is_some, Dict, get,
  set, All, Bool-cases, Option-cases, inl, inr, subst, some_inj,
}
use qase.Device.Types.{
  Level, simulated, Environment, SessionStatus, queued, running, created, Session, Creation,
  creates, declines, create_throws, Start, starts, start_throws, Provider, Device, Manager,
  get_session, device_key, is_busy,
}
use qase.Device.Level.{provider_for_level}
use qase.Device.Manager.{
  is_current, complete_session, cancel_session, request_session, device_state, advance_queue,
  start_next, occupy, release_device, find_provider, is_cancelled, request_at, claim_created,
  enqueue_created, put_device, start_session, cancel_found,
}

-- BUSY exactly while a session holds the device.
abbrev pub IsConsistent : Device → Type 0
IsConsistent d = is_busy d.status ≡ is_some d.current_session_id

abbrev pub BusyIffHeld : Manager → Type 0
BusyIffHeld m = All (λ (e : String × Device). IsConsistent e.1) m.devices

All-set :
    (k : String) (d : Device) (m : Dict Device)
    → IsConsistent d
    → All (λ (e : String × Device). IsConsistent e.1) m
    → All (λ (e : String × Device). IsConsistent e.1) (set k d m)
unfolding set
All-set k d [] c h = (c, tt)
All-set k d ((j, w) ∷ m) c h = elim (Bool-cases (j == k)) [
  | inl e ↦ rw e (c, h.1)
  | inr e ↦ rw e (h.0, All-set k d m c h.1)
]

All-get :
    (k : String) (m : Dict Device) {d : Device}
    → get k m ≡ some d
    → All (λ (e : String × Device). IsConsistent e.1) m
    → IsConsistent d
unfolding get
All-get k [] e h = cc
All-get k ((j, w) ∷ m) {d} e h = elim (Bool-cases (j == k)) [
  | inl i ↦ subst IsConsistent {x = w} {y = d} (some_inj (rw i at e)) h.0
  | inr i ↦ All-get k m (rw i at e) h.1
]

module _ (providers : List Provider) (now : String) where
  occupy-BusyIffHeld :
      (key : String) (k : ℕ) (m : Manager)
      → BusyIffHeld m
      → BusyIffHeld (occupy providers now key k m)
  unfolding occupy
  occupy-BusyIffHeld key k m h = elim (Option-cases (get key m.devices)) [
    | inl e ↦ rw (e, occupy) h
    | inr (d, e) ↦ rw (e, occupy) (All-set key _ m.devices refl h)
  ]

  release-BusyIffHeld :
      (key : String) (k : ℕ) (result : Option String) (m : Manager)
      → BusyIffHeld m
      → BusyIffHeld (release_device providers now key k result m)
  unfolding release_device
  release-BusyIffHeld key k result m h = elim (Option-cases (get key m.devices)) [
    | inl e ↦ rw (e, release_device) h
    | inr (d, e) ↦ elim (Bool-cases (is_current k d.current_session_id)) [
      | inl c ↦ rw (e, release_device, c) (All-set key _ m.devices refl h)
      | inr c ↦ rw (e, release_device, c) h
    ]
  ]

  start_next-BusyIffHeld :
      (key : String) (k : ℕ) (s : Session) (m : Manager)
      → BusyIffHeld m
      → BusyIffHeld (start_next providers now key k s m).0
  unfolding start_next
  start_next-BusyIffHeld key k s m h = elim (Option-cases (find_provider s.provider_id providers)) [
    | inl e ↦ rw (e, start_next) (occupy-BusyIffHeld key s.id _ h)
    | inr (p, e) ↦ rw (e, start_next) (occupy-BusyIffHeld key s.id _ h)
  ]

  advance_queue-BusyIffHeld :
      (key : String) (q : List ℕ) (m : Manager)
      → BusyIffHeld m
      → BusyIffHeld (advance_queue providers now key q m).0
  unfolding advance_queue
  advance_queue-BusyIffHeld key [] m h = h
  advance_queue-BusyIffHeld key (k ∷ rest) m h = elim (Option-cases (get_session k m.sessions)) [
    | inl e ↦ rw (e, advance_queue) (advance_queue-BusyIffHeld key rest m h)
    | inr (s, e) ↦ elim (Bool-cases (is_cancelled s.status)) [
      | inl c ↦ rw (e, advance_queue, c) (advance_queue-BusyIffHeld key rest m h)
      | inr c ↦ rw (e, advance_queue, c) (start_next-BusyIffHeld key k s _ h)
    ]
  ]

  pub complete_session-BusyIffHeld :
      (k : ℕ) (result : Option String) (m : Manager)
      → BusyIffHeld m
      → BusyIffHeld (complete_session providers now k result m).0
  unfolding complete_session
  complete_session-BusyIffHeld k result m h = elim (Option-cases (get_session k m.sessions)) [
    | inl e ↦ rw (e, complete_session) h
    | inr (s, e) ↦
        rw (e, complete_session)
          (advance_queue-BusyIffHeld (device_key s.environment) _ _
            (release-BusyIffHeld (device_key s.environment) k result _ h))
  ]

  pub cancel_session-BusyIffHeld :
      (k : ℕ) (m : Manager) → BusyIffHeld m → BusyIffHeld (cancel_session providers now k m).0
  unfolding cancel_session
  cancel_session-BusyIffHeld k m h = elim (Option-cases (get_session k m.sessions)) [
    | inl e ↦ rw (e, cancel_session) h
    | inr (s, e) ↦ rw (e, cancel_session) (found s.status s)
  ]
    where
      found : (t : SessionStatus) (s : Session) → BusyIffHeld (cancel_found providers now t k s m).0
      found queued s = h
      found running s = complete_session-BusyIffHeld k _ _ h
      found created s = complete_session-BusyIffHeld k _ _ h
      found t s = h

  device_state-IsConsistent :
      (e : Environment) (m : Manager)
      → BusyIffHeld m
      → IsConsistent (device_state providers now e m)
  unfolding device_state
  device_state-IsConsistent e m h = elim (Option-cases (get (device_key e) m.devices)) [
    | inl a ↦ rw (a, device_state) refl
    | inr (d, a) ↦ rw (a, device_state) (All-get (device_key e) m.devices a h)
  ]

  start_session-BusyIffHeld :
      (p : Provider) (key : String) (d : Device) (s : Session) (m : Manager)
      → BusyIffHeld m
      → BusyIffHeld (start_session providers now p key d s m).0
  unfolding start_session
  start_session-BusyIffHeld p key d s m h = outcome (p.start_session s) refl
    where
      outcome :
          (o : Start)
          → p.start_session s ≡ o
          → BusyIffHeld (start_session providers now p key d s m).0
      outcome (starts status) e = rw (e, start_session) (All-set key _ m.devices refl h)
      outcome (start_throws x) e =
          rw (e, start_session)
            (complete_session-BusyIffHeld s.id _ _ (All-set key _ m.devices refl h))

  claim_created-BusyIffHeld :
      (c : Creation) (p : Provider) (key : String) (d : Device) (s : Session) (m : Manager)
      → BusyIffHeld m
      → BusyIffHeld (claim_created providers now c p key d s m).0
  unfolding claim_created
  claim_created-BusyIffHeld (create_throws x) p key d s m h = h
  claim_created-BusyIffHeld (declines reason) p key d s m h = h
  claim_created-BusyIffHeld (creates a) p key d s m h =
      start_session-BusyIffHeld p key d (record s { attestation = a }) m h

  enqueue_created-BusyIffHeld :
      (c : Creation) (key : String) (s : Session) (m : Manager)
      → BusyIffHeld m
      → BusyIffHeld (enqueue_created providers now c key s m).0
  unfolding enqueue_created
  enqueue_created-BusyIffHeld (create_throws x) key s m h = h
  enqueue_created-BusyIffHeld _ key s m h = h

  request_at-BusyIffHeld :
      (p : Provider) (e : Environment) (l : Level) (run test_case : Option String)
      (allow_queue : Bool) (m : Manager)
      → BusyIffHeld m
      → BusyIffHeld (request_at providers now p e l run test_case allow_queue m).0
  unfolding request_at
  request_at-BusyIffHeld p e l run test_case allow_queue m h =
      let d = device_state providers now e m in
      let m' = put_device (device_key e) d m in
      let h' : BusyIffHeld m' =
        All-set (device_key e) d m.devices (device_state-IsConsistent e m h) h in
      elim (Bool-cases (is_busy d.status)) [
        | inl b ↦ elim (Bool-cases (allow_queue && p.queueable)) [
          | inl q ↦
              rw (b, request_at, q) (enqueue_created-BusyIffHeld (p.create_session e) _ _ m' h')
          | inr q ↦ rw (b, request_at, q) h'
        ]
        | inr b ↦ rw (b, request_at) (claim_created-BusyIffHeld (p.create_session e) p _ d _ m' h')
      ]

  pub request_session-BusyIffHeld :
      (e : Environment) (l : Option Level) (run test_case : Option String) (allow_queue : Bool)
      (m : Manager)
      → BusyIffHeld m
      → BusyIffHeld (request_session providers now e l run test_case allow_queue m).0
  unfolding request_session
  request_session-BusyIffHeld e l run test_case allow_queue m h =
      elim (Option-cases (provider_for_level providers (get_or l simulated))) [
        | inl a ↦ rw (a, request_session) h
        | inr (p, a) ↦
            rw (a, request_session) (request_at-BusyIffHeld p e _ run test_case allow_queue m h)
      ]
