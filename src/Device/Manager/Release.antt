-- ===== src/Device/Manager/Release.antt =====
-- The release of a device in server/deviceRuntime/manager.js: by its holder, with and without
-- waiting sessions, and by a cancellation.
use text.Mathlib.TextPositions.{eq_refl}
use qase.Common.{
  ℕ, String, true, false, Option, none, some, List, [], ◌∷◌, ◌≡◌, refl, eqb, arith, get_or, get,
  get-set, ◌∙◌,
}
use qase.Device.Types.{
  available, busy, done, running, cancelled, Session, Provider, Device, Manager, get_session,
  set_session, device_key,
}
use qase.Device.Manager.{
  is_current, queue_of, complete_session, cancel_session, put_device, put_session, put_queue,
  final_status, cancel_found, is_cancelled, released, advance_queue, release_device,
}
use qase.Device.Manager.Handover.{get_session-set_session, advance_queue_starts, start_next_device}

-- The entry of a device after its holder has gone.
abbrev pub freed : String → Option String → Device → Device
freed now result d = record d {
  status = available;
  current_session_id = none;
  last_tested_at = some now;
  last_result = some (get_or result "done");
}

module _ (providers : List Provider) (now : String) where
  release_held :
      (key : String) (k : ℕ) (result : Option String) (m : Manager) {d : Device}
      → get key m.devices ≡ some d
      → is_current k d.current_session_id ≡ true
      → release_device providers now key k result m ≡ put_device key (freed now result d) m
  unfolding release_device
  release_held key k result m g c = rw (g, release_device, c)

  eqb_self : (k : ℕ) → eqb k k ≡ true
  eqb_self k = ground arith

  -- A completion by the holder of a device with no waiting session makes the device AVAILABLE, with
  -- the time and the result noted, and ends the session as failed or done.
  pub complete_session_frees :
      (k : ℕ) (result : Option String) (m : Manager) {s : Session} {d : Device}
      → get_session k m.sessions ≡ some s
      → get (device_key s.environment) m.devices ≡ some d
      → d.current_session_id ≡ some k
      → queue_of (device_key s.environment) m ≡ []
      → let (m', c) = complete_session providers now k result m in
        (c ≡ released none)
        × (get (device_key s.environment) m'.devices ≡ some (freed now result d))
        × (get_session k m'.sessions
            ≡ some (record s { status = final_status result; ended_at = some now }))
  unfolding complete_session advance_queue
  complete_session_frees k result m {s} {d} a b c q =
      let key = device_key s.environment in
      let s' : Session = record s { status = final_status result; ended_at = some now } in
      let holder : is_current k d.current_session_id ≡ true = rw (c, is_current) (eqb_self k) in
      rw (a, complete_session)
        (rw (release_held key k result (put_session k s' m) b holder, q)
          (
            refl,
            rw (get-set, eq_refl key),
            get_session-set_session k k s' m.sessions ∙ rw (eqb_self k),
          ))

  -- A completion by the holder of a device with waiting sessions passes the device to the session
  -- that has waited longest, if that one was not cancelled.
  pub complete_session_hands_over :
      (k n : ℕ) (result : Option String) (rest : List ℕ) (m : Manager) {s w : Session} {d : Device}
      → get_session k m.sessions ≡ some s
      → get (device_key s.environment) m.devices ≡ some d
      → d.current_session_id ≡ some k
      → queue_of (device_key s.environment) m ≡ n ∷ rest
      → eqb k n ≡ false
      → get_session n m.sessions ≡ some w
      → is_cancelled w.status ≡ false
      → get (device_key s.environment) (complete_session providers now k result m).0.devices
        ≡ some (record (freed now result d) { status = busy; current_session_id = some w.id })
  unfolding complete_session
  complete_session_hands_over k n result rest m {s} {w} {d} a b c q f g h =
      let key = device_key s.environment in
      let s' : Session = record s { status = final_status result; ended_at = some now } in
      let m' = put_session k s' m in
      let holder : is_current k d.current_session_id ≡ true = rw (c, is_current) (eqb_self k) in
      let m'' = put_device key (freed now result d) m' in
      let still : get_session n m''.sessions ≡ some w =
        get_session-set_session k n s' m.sessions ∙ (rw f g) in
      let entry : get key m''.devices ≡ some (freed now result d) =
        get-set key key (freed now result d) m.devices ∙ rw (eq_refl key) in
      rw (a, complete_session)
        (rw
          (
            release_held key k result m' b holder,
            q,
            advance_queue_starts providers now key n rest m'' still h,
          )
          (start_next_device providers now key n w (put_queue key rest m'') entry))

  -- Cancelling a running session that holds its device, with no session waiting, frees the device,
  -- but leaves the session recorded as done and not as cancelled.
  pub cancel_session_running :
      (k : ℕ) (m : Manager) {s : Session} {d : Device}
      → get_session k m.sessions ≡ some s
      → s.status ≡ running
      → get (device_key s.environment) m.devices ≡ some d
      → d.current_session_id ≡ some k
      → queue_of (device_key s.environment) m ≡ []
      → let (m', c) = cancel_session providers now k m in
        (get (device_key s.environment) m'.devices ≡ some (freed now (some "cancelled") d))
        × (get_session k m'.sessions ≡ some (record s { status = done; ended_at = some now }))
  unfolding cancel_session
  cancel_session_running k m {s} {d} a t b c q =
      let s' : Session = record s { status = cancelled; ended_at = some now } in
      let kept : get_session k (set_session k s' m.sessions) ≡ some s' =
        get_session-set_session k k s' m.sessions ∙ rw (eqb_self k) in
      let facts =
        complete_session_frees k (some "cancelled") (put_session k s' m) {s = s'} kept b c q in
      rw (a, cancel_session, t, cancel_found) (facts.1, facts.2)
