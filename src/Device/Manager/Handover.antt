-- ===== src/Device/Manager/Handover.antt =====
-- What the manager of server/deviceRuntime/manager.js does with a device that is held.
use qase.Common.{
  ℕ, String, Bool, true, false, Option, some, List, [], ◌∷◌, ◌≡◌, refl, eqb, ◌&&◌, arith,
  if◌then◌else◌, get_or, get, set, Bool-cases, Option-cases, inl, inr, get-set, ◌∙◌, ap,
}
use text.Mathlib.TextPositions.{eq_refl}
use qase.Device.Types.{
  Level, simulated, busy, Environment, Session, Creation, create_throws, Provider, Device, Manager,
  get_session, set_session, device_key, is_busy, Sessions,
}
use qase.Device.Level.{provider_for_level}
use qase.Device.Manager.{
  Reply, is_current, queue_of, complete_session, request_session, request_at, device_state,
  enqueue_created, put_device, put_session, put_queue, final_status, busy_device, queued_at,
  create_failed, is_cancelled, advance_queue, release_device, occupy, start_next, find_provider,
}

pub get_session-set_session :
    (k j : ℕ) (s : Session) (m : Sessions)
    → get_session j (set_session k s m) ≡ (if eqb k j then some s else get_session j m)
unfolding get_session set_session
get_session-set_session k j s [] = refl
get_session-set_session k j s ((i, t) ∷ m) = elim (Bool-cases (eqb i k)) [
  | inl e ↦ rw e (ground arith)
  | inr e ↦ rw e (elim (Bool-cases (eqb i j)) [
    | inl f ↦ rw f (ground arith)
    | inr f ↦ rw f (get_session-set_session k j s m)
  ])
]

-- A reply that hands out no device.
abbrev pub IsTurnedAway : Reply → Type 0
IsTurnedAway (busy_device holder) = Unit {0}
IsTurnedAway (queued_at k position) = Unit {0}
IsTurnedAway (create_failed x) = Unit {0}
IsTurnedAway _ = ⊥

module _ (providers : List Provider) (now : String) where
  enqueue_created_lem :
      (c : Creation) (key : String) (s : Session) (m : Manager)
      → let (m', reply) = enqueue_created providers now c key s m in
        IsTurnedAway reply × (m'.devices ≡ m.devices)
  unfolding enqueue_created
  enqueue_created_lem (create_throws x) key s m = (tt, refl)
  enqueue_created_lem _ key s m = (tt, refl)

  -- A request at a level that a provider supports, for a device that is BUSY, is told so, queued or
  -- fails; no session is started, and the entry of the device stays as it was, with its holder.
  pub request_session_busy :
      (e : Environment) (l : Option Level) (run test_case : Option String) (allow_queue : Bool)
      (m : Manager) {p : Provider} {d : Device}
      → provider_for_level providers (get_or l simulated) ≡ some p
      → get (device_key e) m.devices ≡ some d
      → is_busy d.status ≡ true
      → let (m', reply) = request_session providers now e l run test_case allow_queue m in
        IsTurnedAway reply × (get (device_key e) m'.devices ≡ some d)
  unfolding request_session
  request_session_busy e l run test_case allow_queue m {p} {d} s a b =
      rw (s, request_session) (at_level (get_or l simulated))
    where
      written : get (device_key e) (set (device_key e) d m.devices) ≡ some d
      written = rw (get-set (device_key e) (device_key e) d m.devices, eq_refl (device_key e))

      same : device_state providers now e m ≡ d
      same = unfold device_state in rw a

      at_level :
          (k : Level)
          → let (m', reply) = request_at providers now p e k run test_case allow_queue m in
            IsTurnedAway reply × (get (device_key e) m'.devices ≡ some d)
      at_level k = elim (Bool-cases (allow_queue && p.queueable)) [
        | inl q ↦
            unfold request_at in
            rw (same, b, q)
              (let w =
                  enqueue_created_lem (p.create_session e) (device_key e) _
                    (put_device (device_key e) d m) in
                (w.0, ap (get (device_key e)) w.1 ∙ written))
        | inr q ↦ unfold request_at in rw (same, b, q) (tt, written)
      ]

  pub start_next_device :
      (key : String) (n : ℕ) (w : Session) (m : Manager) {d : Device}
      → get key m.devices ≡ some d
      → get key (start_next providers now key n w m).0.devices
        ≡ some (record d { status = busy; current_session_id = some w.id })
  unfolding start_next occupy
  start_next_device key n w m {d} g = elim (Option-cases (find_provider w.provider_id providers)) [
    | inl e ↦ rw (e, start_next, g, occupy, get-set, eq_refl key)
    | inr (p, e) ↦ rw (e, start_next, g, occupy, get-set, eq_refl key)
  ]

  release_other :
      (key : String) (k : ℕ) (result : Option String) (m : Manager) {d : Device}
      → get key m.devices ≡ some d
      → is_current k d.current_session_id ≡ false
      → release_device providers now key k result m ≡ m
  unfolding release_device
  release_other key k result m g c = rw (g, release_device, c)

  pub advance_queue_starts :
      (key : String) (n : ℕ) (rest : List ℕ) (m : Manager) {w : Session}
      → get_session n m.sessions ≡ some w
      → is_cancelled w.status ≡ false
      → advance_queue providers now key (n ∷ rest) m
        ≡ start_next providers now key n w (put_queue key rest m)
  unfolding advance_queue
  advance_queue_starts key n rest m g h = rw (g, advance_queue, h)

  -- A completion by a session that does not hold the device, as a second completion of the same
  -- session, still starts the next queued session: the device passes to it while the session that
  -- holds the device has not released it.
  pub complete_session_displaces :
      (k j n : ℕ) (result : Option String) (rest : List ℕ) (m : Manager) {s w : Session}
      {d : Device}
      → get_session k m.sessions ≡ some s
      → get (device_key s.environment) m.devices ≡ some d
      → d.current_session_id ≡ some j
      → eqb j k ≡ false
      → queue_of (device_key s.environment) m ≡ n ∷ rest
      → eqb k n ≡ false
      → get_session n m.sessions ≡ some w
      → is_cancelled w.status ≡ false
      → get (device_key s.environment) (complete_session providers now k result m).0.devices
        ≡ some (record d { status = busy; current_session_id = some w.id })
  unfolding complete_session
  complete_session_displaces k j n result rest m {s} {w} {d} a b c e q f g h =
      let key = device_key s.environment in
      let s' : Session = record s { status = final_status result; ended_at = some now } in
      let m' = put_session k s' m in
      let other : is_current k d.current_session_id ≡ false = rw (c, is_current) e in
      let still : get_session n m'.sessions ≡ some w =
        get_session-set_session k n s' m.sessions ∙ (rw f g) in
      rw (a, complete_session)
        (rw (release_other key k result m' b other, q, advance_queue_starts key n rest m' still h)
          (start_next_device key n w (put_queue key rest m') b))
